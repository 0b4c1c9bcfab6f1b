-- ===== src/Controller/Spec.antt =====
-- internal/controller/helpers.go: what the operator wants, from the spec of a WSO2SP object.
use wso2is_operator.Base.{
  String, ◌<>◌, Bool, true, false, List, [], ◌∷◌, map, Option, none, some, Slice, elems, appended,
  ◌==◌, ◌||◌, if◌then◌else◌,
}
use wso2is_operator.Api.Meta.{get_text}
use wso2is_operator.Api.Sp
use wso2is_operator.Api.Sp.{Wso2Sp}
use wso2is_operator.Wso2.App
use wso2is_operator.Wso2.App.{Application, zero_oauth2_config, zero_saml_config}

pub data Component : Type 0 where
  app saml oauth : Component

-- `ReconcileAnnotation`
abbrev pub reconcile_annotation : Component → String
reconcile_annotation app = "wso2.it.auth.gr/reconcile"
reconcile_annotation saml = "wso2.it.auth.gr/reconcile-saml"
reconcile_annotation oauth = "wso2.it.auth.gr/reconcile-oauth"

unfoldable pub skip_reconcile : Component → Wso2Sp → Bool
skip_reconcile c sp = elim sp.meta.annotations [
  | none ↦ false
  | some annotations ↦ get_text (reconcile_annotation c) annotations == "false"
]

unfoldable pub map_claims : List Sp.Claim → List App.Claim
map_claims = map (λ c. record { uri = c.uri; mandatory = c.mandatory })

unfoldable pub filter_token_bindings : String → String
filter_token_bindings s = if s == "session" || s == "cookie" then s else ""

unfoldable pub filter_scope_validators : List String → List String
filter_scope_validators [] = []
filter_scope_validators (c ∷ cs) =
    let rest = filter_scope_validators cs in if c == "xacml" || c == "role" then c ∷ rest else rest

-- `oauth2FromSpec`, at the value of the pointer that it dereferences.
unfoldable pub oauth2_from_spec : Sp.OAuth2Config → App.OAuth2Config
unfolding filter_token_bindings filter_scope_validators
oauth2_from_spec o = record {
  enabled = false;
  callback_url = o.callback_url;
  grant_types = o.grant_types;
  pkce_mandatory = o.pkce_mandatory;
  pkce_plain = o.pkce_plain;
  public_client = o.public_client;
  token_binding = filter_token_bindings o.token_binding;
  audiences = o.audiences;
  scope_validators = filter_scope_validators o.scope_validators;
  refresh_token_expiry = o.refresh_token_expiry;
  access_token_expiry = o.access_token_expiry;
  oauth_consumer_key = "";
  oauth_consumer_secret = "";
}

abbrev step_from_spec : Sp.AuthenticationStep → App.AuthenticationStep
step_from_spec c = record {
  step = c.step;
  local_authenticators = c.local_authenticators;
  federated_idp = c.federated_idp;
  federated_authenticator = c.federated_authenticator;
}

unfoldable pub authentication_steps_from_spec : Wso2Sp → Slice App.AuthenticationStep
authentication_steps_from_spec sp =
    appended (map step_from_spec (elems sp.spec.authentication_steps))

abbrev pub is_some : {A : Type 0} → Option A → Bool
is_some none = false
is_some (some _) = true

unfoldable pub application_from_spec : Wso2Sp → Application
unfolding map_claims authentication_steps_from_spec
application_from_spec sp = record {
  id = sp.status.id;
  resource_id = sp.status.resource_id;
  name = sp.spec.name;
  description = sp.spec.name <> (" -- " <> sp.spec.description);
  claims = map_claims sp.spec.claims;
  subject_claim_uri = sp.spec.subject_claim_uri;
  oauth2 = some (record zero_oauth2_config { enabled = is_some sp.spec.oauth2 });
  saml = some (record zero_saml_config { enabled = is_some sp.spec.saml });
  authentication_steps = authentication_steps_from_spec sp;
  authentication_script = "";
  always_send_back_authenticated_list_of_idps = sp.spec.always_send_back_authenticated_list_of_idps;
  enable_authorization = sp.spec.enable_authorization;
  skip_consent = sp.spec.skip_consent;
  skip_logout_consent = sp.spec.skip_logout_consent;
  use_tenant_in_sub = sp.spec.use_tenant_in_sub;
  use_userstore_in_sub = sp.spec.use_userstore_in_sub;
  use_userstore_in_roles = sp.spec.use_userstore_in_roles;
  step_for_subject = sp.spec.step_for_subject;
  step_for_attributes = sp.spec.step_for_attributes;
}
