-- ===== src/RoundTrip/Oauth.antt =====
-- The OAuth configuration: `buildUpdateOAuthApplication` and `mapGetOAuthApplication`.
use wso2is_operator.Base.{
  String, false, List, [], ◌∷◌, some, elems, ◌==◌, All, ◌≡◌, refl, ap, ◌∙◌, arith, eq_iff,
  Bool-cases, inl, inr,
}
use wso2is_operator.Base.Text.{split}
use wso2is_operator.Base.Text.Split.{Lacks, split-join}
use wso2is_operator.Api.Sp
use wso2is_operator.Wso2.App.{OAuth2Config}
use wso2is_operator.Wso2.Soap.Oauth.{OAuthApplication, OAuthApplicationResponse}
use wso2is_operator.Wso2.Build.Oauth.{
  build_scope_validators, build_token_binding_type, oauth_application,
}
use wso2is_operator.Wso2.Map.Oauth.{map_scope_validators, map_token_binding, oauth2_config}
use wso2is_operator.Controller.Spec.{filter_token_bindings, filter_scope_validators}

-- The server returns the fields of a request as it got them. The consumer key and secret are its own.
pub record Keeps (sent : OAuthApplication) (got : OAuthApplicationResponse) : Type 0 where
  pub audiences : got.audiences ≡ sent.audiences
  pub bypass_client_credentials : got.bypass_client_credentials ≡ sent.bypass_client_credentials
  pub callback_url : got.callback_url ≡ sent.callback_url
  pub grant_types : got.grant_types ≡ sent.grant_types
  pub pkce_mandatory : got.pkce_mandatory ≡ sent.pkce_mandatory
  pub pkce_support_plain : got.pkce_support_plain ≡ sent.pkce_support_plain
  pub refresh_token_expiry_time : got.refresh_token_expiry_time ≡ sent.refresh_token_expiry_time
  pub scope_validators : got.scope_validators ≡ sent.scope_validators
  pub token_binding_type : got.token_binding_type ≡ sent.token_binding_type
  pub user_access_token_expiry_time :
      got.user_access_token_expiry_time ≡ sent.user_access_token_expiry_time

map-build_token_binding :
    (s : String) → map_token_binding (build_token_binding_type s) ≡ filter_token_bindings s
unfolding map_token_binding build_token_binding_type filter_token_bindings
map-build_token_binding s = elim (Bool-cases (s == "")) [
  | inl e ↦ rw ((eq_iff s "").0 e) refl
  | inr e ↦ elim (Bool-cases (s == "session")) [
    | inl x ↦ rw ((eq_iff s "session").0 x) refl
    | inr x ↦ elim (Bool-cases (s == "cookie")) [
      | inl y ↦ rw ((eq_iff s "cookie").0 y) refl
      | inr y ↦ rw (e, x, y) refl
    ]
  ]
]

map-build_scope_validators :
    (l : List String) → map_scope_validators (build_scope_validators l) ≡ filter_scope_validators l
unfolding map_scope_validators build_scope_validators filter_scope_validators
map-build_scope_validators [] = refl
map-build_scope_validators (c ∷ l) =
    ground (arith, map-build_scope_validators l, eq_iff c "xacml", eq_iff c "role")

-- What the operator reads back of a configuration that it has sent, over a server that keeps the
-- fields of the request, where there is a grant type and none holds a space: the configuration, with
-- `Enabled` and `PublicClient` false, the token binding and the scope validators filtered as
-- `oauth2FromSpec` filters them, and the server's consumer key and secret.
pub oauth2_config-oauth_application :
    (name : String) (cfg : OAuth2Config) (got : OAuthApplicationResponse) (g : String)
    (gs : List String)
    → Keeps (oauth_application name cfg) got
    → elems cfg.grant_types ≡ g ∷ gs
    → Lacks b' ' g
    → All (Lacks b' ') gs
    → oauth2_config got ≡ record cfg {
      enabled = false;
      grant_types = some (g ∷ gs);
      public_client = false;
      token_binding = filter_token_bindings cfg.token_binding;
      scope_validators = filter_scope_validators cfg.scope_validators;
      oauth_consumer_key = got.oauth_consumer_key;
      oauth_consumer_secret = got.oauth_consumer_secret;
    }
unfolding oauth2_config oauth_application
oauth2_config-oauth_application name cfg got g gs k e h hs = λ i. record {
  enabled = false;
  callback_url = k.callback_url i;
  grant_types = some (grants i);
  pkce_mandatory = k.pkce_mandatory i;
  pkce_plain = k.pkce_support_plain i;
  public_client = k.bypass_client_credentials i;
  token_binding = binding i;
  audiences = k.audiences i;
  scope_validators = scopes i;
  refresh_token_expiry = k.refresh_token_expiry_time i;
  access_token_expiry = k.user_access_token_expiry_time i;
  oauth_consumer_key = got.oauth_consumer_key;
  oauth_consumer_secret = got.oauth_consumer_secret;
}
  where
    grants : split got.grant_types b' ' ≡ g ∷ gs
    grants = ap (λ t. split t b' ') k.grant_types ∙ rw e (split-join " " g gs h hs)

    binding : map_token_binding got.token_binding_type ≡ filter_token_bindings cfg.token_binding
    binding = rw k.token_binding_type (map-build_token_binding cfg.token_binding)

    scopes :
        map_scope_validators got.scope_validators ≡ filter_scope_validators cfg.scope_validators
    scopes = rw k.scope_validators (map-build_scope_validators cfg.scope_validators)
