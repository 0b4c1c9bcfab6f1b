-- ===== src/Api/Instance.antt =====
-- api/v1alpha1/wso2isinstance_types.go: the WSO2ISInstance resource.
use wso2is_operator.Base.{String, Bool, List}
use wso2is_operator.Api.Meta.{ObjectMeta, Condition}

-- `corev1.SecretReference`
pub record SecretReference : Type 0 where
  pub name : String
  pub namespace : String

pub record Wso2IsInstanceSpec : Type 0 where
  pub base_url : String
  pub credentials_secret : SecretReference
  pub insecure_skip_tls_verify : Bool
  pub tenant_domain : String

pub record Wso2IsInstanceStatus : Type 0 where
  pub ready : Bool
  pub message : String
  pub phase : String
  pub conditions : List Condition

pub record Wso2IsInstance : Type 0 where
  pub meta : ObjectMeta
  pub spec : Wso2IsInstanceSpec
  pub status : Wso2IsInstanceStatus
