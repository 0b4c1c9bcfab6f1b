-- ===== src/Tests/Configurations.antt =====
-- The theorems on the comparison of configurations and on what is read back, at concrete inputs.
use wso2is_operator.Base.{
  ◌==◌, if◌then◌else◌, String, true, false, List, [], ◌∷◌, none, some, pos, ◌≡◌, refl, ◌⊎◌, ◌↔◌,
  map,
}
use wso2is_operator.Base.Exit.{done, panicked, index_out_of_range}
use wso2is_operator.Api.Sp
use wso2is_operator.Wso2.App.{
  Claim, OAuth2Config, SamlConfig, Application, zero_oauth2_config, zero_saml_config,
}
use wso2is_operator.Wso2.Json.{Json}
use wso2is_operator.Wso2.Json.Application.{canonical}
use wso2is_operator.Wso2.Soap.Oauth.{OAuthApplicationResponse}
use wso2is_operator.Wso2.Soap.ProviderReply.{
  AuthenticationStepResponse, FederatedIdentityProvidersResponse,
}
use wso2is_operator.Wso2.Build.Oauth.{oauth_application}
use wso2is_operator.Wso2.Map.Application.{MappedSteps, map_authentication_steps}
use wso2is_operator.Controller.Spec.{oauth2_from_spec}
use wso2is_operator.Controller.Changed.{
  oauth2_has_changed, saml_sp_has_changed, app_has_changed, normalize_application,
}
use wso2is_operator.Controller.Changed.Laws.{
  saml_key, oauth2_has_changed-eq-false_iff, saml_sp_has_changed-eq-false_iff,
  app_has_changed-eq-false_iff, app_has_changed-reordered,
}
use wso2is_operator.RoundTrip.Steps.{all_have, map_authentication_steps-exit}

abbrev no_digest : Json → String
no_digest _ = ""

abbrev code_config : OAuth2Config
code_config = record zero_oauth2_config {
  callback_url = "https://a/cb";
  grant_types = some ("code" ∷ []);
}

oauth2_has_changed-eq-false_iff_example :
    (oauth2_has_changed no_digest code_config code_config ≡ false) ↔ (code_config ≡ code_config)
oauth2_has_changed-eq-false_iff_example =
    oauth2_has_changed-eq-false_iff no_digest code_config code_config (λ _. refl)

abbrev remote_saml : SamlConfig
remote_saml = record zero_saml_config { issuer = "https://a/sp"; cert_alias = "a" }

abbrev wanted_saml : SamlConfig
wanted_saml = record zero_saml_config { issuer = "https://a/sp" }

saml_sp_has_changed-eq-false_iff_example :
    (saml_sp_has_changed no_digest remote_saml wanted_saml ≡ false)
    ↔ (saml_key remote_saml ≡ saml_key wanted_saml)
saml_sp_has_changed-eq-false_iff_example =
    saml_sp_has_changed-eq-false_iff no_digest remote_saml wanted_saml (λ _. refl)

abbrev wanted_application : Application
wanted_application = record {
  id = pos 0;
  resource_id = "";
  name = "portal";
  description = "";
  claims = [];
  subject_claim_uri = "";
  oauth2 = some code_config;
  saml = none;
  authentication_steps = none;
  authentication_script = "";
  always_send_back_authenticated_list_of_idps = false;
  enable_authorization = false;
  skip_consent = false;
  skip_logout_consent = false;
  use_tenant_in_sub = false;
  use_userstore_in_sub = false;
  use_userstore_in_roles = false;
  step_for_subject = pos 1;
  step_for_attributes = pos 1;
}

abbrev remote_application : Application
remote_application = record wanted_application { id = pos 7; resource_id = "a1b2" }

abbrev unsorted : List Claim → List Claim
unsorted cs = cs

app_has_changed-eq-false_iff_example :
    ((app_has_changed unsorted no_digest remote_application wanted_application).0 ≡ false) ↔ (
      canonical (normalize_application unsorted remote_application)
      ≡ canonical (normalize_application unsorted wanted_application))
unfolding normalize_application
app_has_changed-eq-false_iff_example =
    app_has_changed-eq-false_iff unsorted no_digest remote_application wanted_application
      (λ _. refl)

abbrev pub wanted_oauth2 : Sp.OAuth2Config
wanted_oauth2 = record {
  callback_url = "https://a/cb";
  grant_types = some ("code" ∷ []);
  pkce_mandatory = true;
  pkce_plain = false;
  public_client = false;
  token_binding = "cookie";
  audiences = [];
  scope_validators = "role" ∷ [];
  refresh_token_expiry = pos 86400;
  access_token_expiry = pos 3600;
}

abbrev wanted_config : OAuth2Config
unfolding oauth2_from_spec
wanted_config = oauth2_from_spec wanted_oauth2

-- What a server that keeps the fields of the request answers.
abbrev pub kept : OAuthApplicationResponse
unfolding oauth_application oauth2_from_spec
kept =
    let sent = oauth_application "portal" (oauth2_from_spec wanted_oauth2) in
    record {
      oauth_version = "OAuth-2.0";
      application_access_token_expiry_time = pos 3600;
      application_name = "portal";
      audiences = sent.audiences;
      bypass_client_credentials = sent.bypass_client_credentials;
      callback_url = sent.callback_url;
      grant_types = sent.grant_types;
      id_token_expiry_time = pos 3600;
      oauth_consumer_key = "key";
      oauth_consumer_secret = "secret";
      pkce_mandatory = sent.pkce_mandatory;
      pkce_support_plain = sent.pkce_support_plain;
      refresh_token_expiry_time = sent.refresh_token_expiry_time;
      scope_validators = sent.scope_validators;
      token_binding_type = sent.token_binding_type;
      token_type = "";
      user_access_token_expiry_time = sent.user_access_token_expiry_time;
      username = "";
    }

abbrev bare_provider : FederatedIdentityProvidersResponse
bare_provider = record { identity_provider_name = "corp"; federated_authenticatior_config = [] }

abbrev bare_step : AuthenticationStepResponse
bare_step = record {
  step_order = pos 1;
  subject_step = true;
  attribute_step = true;
  local_authenticator_configs = [];
  federated_identity_providers = bare_provider ∷ [];
}

map_authentication_steps-exit_example :
    (all_have (bare_step ∷ []) ≡ true)
      × ((m : MappedSteps) × (map_authentication_steps (bare_step ∷ []) ≡ done m)
          × (map (λ s. s.step) m.steps ≡ pos 1 ∷ []))
    ⊎ (all_have (bare_step ∷ []) ≡ false)
      × (map_authentication_steps (bare_step ∷ []) ≡ panicked index_out_of_range)
map_authentication_steps-exit_example = map_authentication_steps-exit (bare_step ∷ [])

abbrev mail : Claim
mail = record { uri = "urn:mail"; mandatory = true }

abbrev phone : Claim
phone = record { uri = "urn:phone"; mandatory = false }

-- Sorts two claims of which one is `phone`.
abbrev by_uri : List Claim → List Claim
by_uri (a ∷ b ∷ []) = if a.uri == "urn:phone" then b ∷ a ∷ [] else a ∷ b ∷ []
by_uri cs = cs

app_has_changed-reordered_example :
    (app_has_changed by_uri no_digest
      (record wanted_application { claims = phone ∷ mail ∷ []; id = pos 7; resource_id = "a1b2" })
      (record wanted_application { claims = mail ∷ phone ∷ [] })).0
    ≡ false
app_has_changed-reordered_example =
    app_has_changed-reordered by_uri no_digest
      (record wanted_application { claims = mail ∷ phone ∷ [] }) (phone ∷ mail ∷ []) (pos 7) "a1b2"
      refl
