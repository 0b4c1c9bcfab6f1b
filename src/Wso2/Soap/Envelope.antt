-- ===== src/Wso2/Soap/Envelope.antt =====
-- internal/wso2/soap.go: the envelopes and the XML namespaces of the requests.
use wso2is_operator.Base.{String}

abbrev pub soap_env_ns : String
soap_env_ns = "http://schemas.xmlsoap.org/soap/envelope/"

abbrev pub axis_ns : String
axis_ns = "http://org.apache.axis2/xsd"

abbrev pub common_ns : String
common_ns = "http://model.common.application.identity.carbon.wso2.org/xsd"

pub record RequestEnvelope (T : Type 0) : Type 0 where
  pub soap_env : String
  pub xsd : String
  pub xsd1 : String
  pub body : T

pub record ResponseEnvelope (T : Type 0) : Type 0 where
  pub body : T
