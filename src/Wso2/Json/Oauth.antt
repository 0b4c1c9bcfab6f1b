-- ===== src/Wso2/Json/Oauth.antt =====
-- internal/wso2/application.go: how `OAuth2Config` is written as JSON, from its struct tags.
use wso2is_operator.Base.{◌≡◌}
use wso2is_operator.Wso2.App.{OAuth2Config}
use wso2is_operator.Wso2.Json.{
  bool, str, field, end, Fields, slice_json, opt_bool, opt_str, opt_num, opt_strs, get, read_bool,
  read_str, read_num, read_strs, read_slice, reads,
}

unfoldable pub oauth2_fields : OAuth2Config → Fields
oauth2_fields c = field "enabled" (bool c.enabled) (
    field "callbackURL" (str c.callback_url) (
      field "grantTypes" (slice_json c.grant_types) (
        opt_bool "pkceMandatory" c.pkce_mandatory (
          opt_bool "pkcePlain" c.pkce_plain (
            opt_bool "publicClient" c.public_client (
              opt_str "tokenBinding" c.token_binding (
                opt_strs "audiences" c.audiences (
                  opt_strs "scopeValidators" c.scope_validators (
                    opt_num "refreshTokenExpiry" c.refresh_token_expiry (
                      opt_num "accessTokenExpiry" c.access_token_expiry (
                        opt_str "oauthConsumerKey" c.oauth_consumer_key
                          (opt_str "oauthConsumerSecret" c.oauth_consumer_secret end))))))))))))

pub read_oauth2 : Fields → OAuth2Config
read_oauth2 fs = record {
  enabled = read_bool (get "enabled" fs);
  callback_url = read_str (get "callbackURL" fs);
  grant_types = read_slice (get "grantTypes" fs);
  pkce_mandatory = read_bool (get "pkceMandatory" fs);
  pkce_plain = read_bool (get "pkcePlain" fs);
  public_client = read_bool (get "publicClient" fs);
  token_binding = read_str (get "tokenBinding" fs);
  audiences = read_strs (get "audiences" fs);
  scope_validators = read_strs (get "scopeValidators" fs);
  refresh_token_expiry = read_num (get "refreshTokenExpiry" fs);
  access_token_expiry = read_num (get "accessTokenExpiry" fs);
  oauth_consumer_key = read_str (get "oauthConsumerKey" fs);
  oauth_consumer_secret = read_str (get "oauthConsumerSecret" fs);
}

-- The JSON holds every field.
pub read-oauth2_fields : (c : OAuth2Config) → read_oauth2 (oauth2_fields c) ≡ c
unfolding read_oauth2 oauth2_fields
read-oauth2_fields c = simp reads
