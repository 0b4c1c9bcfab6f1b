-- ===== src/Wso2/Map/Oauth.antt =====
-- internal/wso2/mapper.go: `mapGetOAuthApplication`.
use wso2is_operator.Base.{String, List, [], ◌∷◌, some, false, ◌==◌, if◌then◌else◌}
use wso2is_operator.Base.Text.{split}
use wso2is_operator.Wso2.App.{OAuth2Config}
use wso2is_operator.Wso2.Soap.Envelope.{ResponseEnvelope}
use wso2is_operator.Wso2.Soap.Oauth.{
  OAuthApplicationResponse, GetOAuthApplicationDataByAppNameResponseBody, xacml_validator,
  role_validator, session_binding, cookie_binding,
}

unfoldable pub map_token_binding : String → String
map_token_binding s =
    if s == ""
    then ""
    else if s == session_binding
    then "session"
    else if s == cookie_binding
    then "cookie"
    else ""

unfoldable pub map_scope_validators : List String → List String
map_scope_validators [] = []
map_scope_validators (c ∷ cs) =
    let rest = map_scope_validators cs in
    if c == xacml_validator
    then "xacml" ∷ rest
    else if c == role_validator
    then "role" ∷ rest
    else rest

-- The literal of `mapGetOAuthApplication`. `Enabled` is left out, and so false.
unfoldable pub oauth2_config : OAuthApplicationResponse → OAuth2Config
unfolding map_token_binding map_scope_validators split
oauth2_config oauth2_cfg = record {
  enabled = false;
  callback_url = oauth2_cfg.callback_url;
  grant_types = some (split oauth2_cfg.grant_types b' ');
  pkce_mandatory = oauth2_cfg.pkce_mandatory;
  pkce_plain = oauth2_cfg.pkce_support_plain;
  public_client = oauth2_cfg.bypass_client_credentials;
  token_binding = map_token_binding oauth2_cfg.token_binding_type;
  audiences = oauth2_cfg.audiences;
  scope_validators = map_scope_validators oauth2_cfg.scope_validators;
  refresh_token_expiry = oauth2_cfg.refresh_token_expiry_time;
  access_token_expiry = oauth2_cfg.user_access_token_expiry_time;
  oauth_consumer_key = oauth2_cfg.oauth_consumer_key;
  oauth_consumer_secret = oauth2_cfg.oauth_consumer_secret;
}

unfoldable pub map_get_oauth_application :
    ResponseEnvelope GetOAuthApplicationDataByAppNameResponseBody → OAuth2Config
unfolding oauth2_config
map_get_oauth_application r =
    oauth2_config r.body.get_oauth_application_data_by_app_name_response.oauth_application
