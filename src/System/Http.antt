-- ===== src/System/Http.antt =====
-- internal/wso2/client.go: requests and responses. A request holds its body before it is encoded:
-- `encoding/json` and `encoding/xml` stand outside the model, with the network.
use wso2is_operator.Base.{ℕ, String, Bool, Option}
use wso2is_operator.Wso2.Scim.{ScimUserSearch, ScimGroupSearch, ScimGroupPatch}
use wso2is_operator.Wso2.Soap.Envelope.{RequestEnvelope}
use wso2is_operator.Wso2.Soap.Provider.{
  CreateApplicationBody, GetApplicationBody, UpdateApplicationBody, DeleteApplicationBody,
}
use wso2is_operator.Wso2.Soap.Oauth.{RegisterOAuthBody, GetOAuthBody, UpdateOAuthBody}
use wso2is_operator.Wso2.Soap.Saml.{
  CreateSamlApplicationBody, GetServiceProviderBody, RemoveSamlSpBody,
}

-- The values that the client passes as a request's body.
pub data Payload : Type 0 where
  user_search : ScimUserSearch → Payload
  group_search : ScimGroupSearch → Payload
  group_patch : ScimGroupPatch → Payload
  get_application : RequestEnvelope GetApplicationBody → Payload
  create_application : RequestEnvelope CreateApplicationBody → Payload
  update_application : RequestEnvelope UpdateApplicationBody → Payload
  delete_application : RequestEnvelope DeleteApplicationBody → Payload
  get_oauth : RequestEnvelope GetOAuthBody → Payload
  register_oauth : RequestEnvelope RegisterOAuthBody → Payload
  update_oauth : RequestEnvelope UpdateOAuthBody → Payload
  get_service_provider : RequestEnvelope GetServiceProviderBody → Payload
  create_saml : RequestEnvelope CreateSamlApplicationBody → Payload
  remove_saml : RequestEnvelope RemoveSamlSpBody → Payload

pub record RequestOptions : Type 0 where
  pub content_type : String
  pub accept : String
  pub soap_action : String

pub record HttpRequest : Type 0 where
  pub method : String
  pub url : String
  pub body : Option Payload
  pub username : String
  pub password : String
  pub skip_tls : Bool
  pub options : RequestOptions

pub record Response : Type 0 where
  pub body : String
  pub status_code : ℕ
  pub location : String

-- What comes of fetching metadata: an error before the request, one of the exchange, one while the
-- body is read after a good status, a bad status, or a body.
pub data Fetched : Type 0 where
  bad_url : String → Fetched
  unreachable : String → Fetched
  bad_status : String → Fetched
  unreadable : String → Fetched
  fetched : String → Fetched
