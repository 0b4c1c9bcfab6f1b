-- ===== src/Wso2/Soap/Oauth.antt =====
-- internal/wso2/soap.go: the OAuth requests and replies. `ScopeValidator` and `TokenBindingType` are
-- texts, with the constants below.
use wso2is_operator.Base.{String, Bool, List, ℤ}

pub record OAuthApplication : Type 0 where
  pub oauth_version : String
  pub application_access_token_expiry_time : ℤ
  pub application_name : String
  pub audiences : List String
  pub bypass_client_credentials : Bool
  pub callback_url : String
  pub grant_types : String
  pub oauth_consumer_key : String
  pub oauth_consumer_secret : String
  pub pkce_mandatory : Bool
  pub pkce_support_plain : Bool
  pub refresh_token_expiry_time : ℤ
  pub scope_validators : List String
  pub token_binding_type : String
  pub user_access_token_expiry_time : ℤ
  pub id_token_expiry_time : ℤ

pub record OAuthApplicationResponse : Type 0 where
  pub oauth_version : String
  pub application_access_token_expiry_time : ℤ
  pub application_name : String
  pub audiences : List String
  pub bypass_client_credentials : Bool
  pub callback_url : String
  pub grant_types : String
  pub id_token_expiry_time : ℤ
  pub oauth_consumer_key : String
  pub oauth_consumer_secret : String
  pub pkce_mandatory : Bool
  pub pkce_support_plain : Bool
  pub refresh_token_expiry_time : ℤ
  pub scope_validators : List String
  pub token_binding_type : String
  pub token_type : String
  pub user_access_token_expiry_time : ℤ
  pub username : String

pub record RegisterOAuthApplicationDataRequest : Type 0 where
  pub application : OAuthApplication

pub record RegisterOAuthBody : Type 0 where
  pub register_oauth_application_data : RegisterOAuthApplicationDataRequest

pub record GetOAuthApplicationDataByAppNameRequest : Type 0 where
  pub app_name : String

pub record GetOAuthBody : Type 0 where
  pub get_oauth_application_data_by_app_name : GetOAuthApplicationDataByAppNameRequest

pub record UpdateConsumerApplicationRequest : Type 0 where
  pub consumer_app_dto : OAuthApplication

pub record UpdateOAuthBody : Type 0 where
  pub update_consumer_application : UpdateConsumerApplicationRequest

pub record GetOAuthApplicationDataByAppNameResponse : Type 0 where
  pub oauth_application : OAuthApplicationResponse

pub record GetOAuthApplicationDataByAppNameResponseBody : Type 0 where
  pub get_oauth_application_data_by_app_name_response : GetOAuthApplicationDataByAppNameResponse

abbrev pub xacml_validator : String
xacml_validator = "Role based scope validator"

abbrev pub role_validator : String
role_validator = "XACML Scope Validator"

abbrev pub session_binding : String
session_binding = "sso-session"

abbrev pub cookie_binding : String
cookie_binding = "cookie"
