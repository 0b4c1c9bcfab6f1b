-- ===== src/Wso2/Build/Oauth.antt =====
-- internal/wso2/builder.go: the requests about the OAuth configuration of an application.
use wso2is_operator.Base.{String, List, [], ◌∷◌, pos, false, ◌==◌, if◌then◌else◌, elems}
use wso2is_operator.Base.Text.{join}
use wso2is_operator.Wso2.App.{OAuth2Config}
use wso2is_operator.Wso2.Soap.Envelope.{RequestEnvelope, soap_env_ns, axis_ns, common_ns}
use wso2is_operator.Wso2.Soap.Oauth.{
  OAuthApplication, RegisterOAuthBody, GetOAuthBody, UpdateOAuthBody, xacml_validator,
  role_validator, session_binding, cookie_binding,
}

unfoldable pub build_scope_validators : List String → List String
build_scope_validators [] = []
build_scope_validators (c ∷ cs) =
    let rest = build_scope_validators cs in
    if c == "xacml"
    then xacml_validator ∷ rest
    else if c == "role"
    then role_validator ∷ rest
    else rest

unfoldable pub build_token_binding_type : String → String
build_token_binding_type s =
    if s == ""
    then ""
    else if s == "session"
    then session_binding
    else if s == "cookie"
    then cookie_binding
    else ""

-- The application of `buildCreateOAuthApplicaiton` and `buildUpdateOAuthApplication`, which write
-- the same literal. A field that the literal leaves out is zero.
unfoldable pub oauth_application : String → OAuth2Config → OAuthApplication
unfolding build_scope_validators build_token_binding_type join
oauth_application name cfg = record {
  oauth_version = "OAuth-2.0";
  application_access_token_expiry_time = cfg.access_token_expiry;
  application_name = name;
  audiences = cfg.audiences;
  bypass_client_credentials = false;
  callback_url = cfg.callback_url;
  grant_types = join (elems cfg.grant_types) " ";
  oauth_consumer_key = cfg.oauth_consumer_key;
  oauth_consumer_secret = cfg.oauth_consumer_secret;
  pkce_mandatory = cfg.pkce_mandatory;
  pkce_support_plain = cfg.pkce_plain;
  refresh_token_expiry_time = cfg.refresh_token_expiry;
  scope_validators = build_scope_validators cfg.scope_validators;
  token_binding_type = build_token_binding_type cfg.token_binding;
  user_access_token_expiry_time = cfg.access_token_expiry;
  id_token_expiry_time = pos 0;
}

unfoldable pub build_get_oauth_application : String → RequestEnvelope GetOAuthBody
build_get_oauth_application name = record {
  soap_env = soap_env_ns;
  xsd = axis_ns;
  xsd1 = "";
  body = record { get_oauth_application_data_by_app_name = record { app_name = name } };
}

unfoldable pub build_create_oauth_application :
    String → OAuth2Config → RequestEnvelope RegisterOAuthBody
unfolding oauth_application
build_create_oauth_application name cfg = record {
  soap_env = soap_env_ns;
  xsd = axis_ns;
  xsd1 = common_ns;
  body = record {
    register_oauth_application_data = record { application = oauth_application name cfg };
  };
}

unfoldable pub build_update_oauth_application :
    String → OAuth2Config → RequestEnvelope UpdateOAuthBody
unfolding oauth_application
build_update_oauth_application name cfg = record {
  soap_env = soap_env_ns;
  xsd = axis_ns;
  xsd1 = common_ns;
  body = record {
    update_consumer_application = record { consumer_app_dto = oauth_application name cfg };
  };
}
