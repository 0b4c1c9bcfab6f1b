-- ===== src/RoundTrip/Application/Kept.antt =====
-- The claims, the inbound configurations and the steps of a reply that holds what a request held, and
-- what `mapGetApplication` makes of them.
use wso2is_operator.Base.{
  String, Bool, true, false, List, [], ◌∷◌, map, Option, none, some, elems, ℤ, pos, eqb_ℤ,
  eqb_ℤ_iff, ◌==◌, eq_iff, ◌≡◌, refl, sym, ap, ◌∙◌, any, All, Bool-cases, inl, inr, if◌then◌else◌,
}
use wso2is_operator.Base.Exit.{done}
use wso2is_operator.Wso2.App.{Claim, AuthenticationStep, OAuth2Config, SamlConfig, Application}
use wso2is_operator.Controller.Secrets.{given}
use wso2is_operator.Wso2.Soap.Provider.{
  ClaimMappingRequest, InboundAuthenticationRequestConfigRequest, FederatedIdentityProvidersRequest,
  AuthenticationStepRequest,
}
use wso2is_operator.Wso2.Soap.ProviderReply.{
  ClaimMappingResponse, InboundAuthenticationRequestConfigResponse,
  FederatedIdentityProvidersResponse, AuthenticationStepResponse,
}
use wso2is_operator.Wso2.Build.Application.{
  build_claim_config, build_inbound_auth_config, build_local_authenticators,
  build_federated_authenticators, build_federated_providers, build_authentication_step,
  build_authentication_steps,
}
use wso2is_operator.Wso2.Map.Application.{
  map_local_authenticators, map_federated_idp, map_federated_authenticator, map_authentication_step,
  map_steps_from, map_authentication_steps, map_claims, is_oauth_enabled, is_saml_enabled,
}

-- The reply that holds what a request held. `encoding/xml` leaves out an empty list, and an absent
-- list is read as an empty one.
abbrev pub kept_claim : ClaimMappingRequest → ClaimMappingResponse
kept_claim c = record {
  local_claim = record { claim_uri = c.local_claim.claim_uri };
  remote_claim = record { claim_uri = c.remote_claim.claim_uri };
  mandatory = c.mandatory;
  requested = c.requested;
}

abbrev pub kept_inbound :
    InboundAuthenticationRequestConfigRequest → InboundAuthenticationRequestConfigResponse
kept_inbound c = record {
  inbound_auth_key = c.inbound_auth_key;
  inbound_auth_type = c.inbound_auth_type;
  properties = map (λ p. record { name = p.name; value = p.value }) c.properties;
}

abbrev pub kept_provider : FederatedIdentityProvidersRequest → FederatedIdentityProvidersResponse
kept_provider p = record {
  federated_authenticatior_config =
      map (λ a. record { display_name = a.display_name; name = a.name; valid = a.valid })
        p.federated_authenticatior_config;
  identity_provider_name = p.identity_provider_name;
}

abbrev pub kept_step : AuthenticationStepRequest → AuthenticationStepResponse
kept_step c = record {
  federated_identity_providers = map kept_provider (elems c.federated_identity_providers);
  local_authenticator_configs =
      map (λ a. record { display_name = a.display_name; name = a.name; valid = a.valid })
        c.local_authenticator_configs;
  step_order = c.step_order;
  subject_step = c.subject_step;
  attribute_step = c.attribute_step;
}

pub map-kept_claim : (cs : List Claim) → map_claims (map kept_claim (build_claim_config cs)) ≡ cs
unfolding map_claims build_claim_config
map-kept_claim [] = refl
map-kept_claim (c ∷ cs) = ap (λ r. c ∷ r) (map-kept_claim cs)

-- A step that names a provider names an authenticator of it.
abbrev pub IsReadable : AuthenticationStep → Type 0
IsReadable c = (c.federated_authenticator ≡ "") → c.federated_idp ≡ ""

map-build_local :
    (la : List String)
    → map_local_authenticators (
        map
          (λ a. record { display_name = a.display_name; name = a.name; valid = a.valid })
          (build_local_authenticators la))
      ≡ la
unfolding map_local_authenticators build_local_authenticators
map-build_local [] = refl
map-build_local (c ∷ la) = ap (λ r. c ∷ r) (map-build_local la)

abbrev pub kept_providers : AuthenticationStep → List FederatedIdentityProvidersResponse
unfolding build_federated_providers build_federated_authenticators
kept_providers c = map kept_provider (elems (build_federated_providers c))

kept_providers-cases :
    (c : AuthenticationStep)
    → IsReadable c
    → (map_federated_idp (kept_providers c) ≡ c.federated_idp)
      × (map_federated_authenticator (kept_providers c) ≡ done c.federated_authenticator)
unfolding map_federated_idp map_federated_authenticator build_federated_providers
    build_federated_authenticators
kept_providers-cases c readable = elim (Bool-cases (c.federated_authenticator == "")) [
  | inl e ↦ let fa = (eq_iff c.federated_authenticator "").0 e in rw (fa, readable fa) (refl, refl)
  | inr e ↦ rw e (refl, refl)
]

map-kept_step :
    (a : Application) (c : AuthenticationStep)
    → IsReadable c
    → map_authentication_step (kept_step (build_authentication_step a c)) ≡ done c
unfolding map_authentication_step build_authentication_step
map-kept_step a c readable =
    let (idp, authenticator) = kept_providers-cases c readable in
    rw (authenticator, idp, map-build_local c.local_authenticators) refl

-- The number if a step has it, else the default.
abbrev pub number_of : ℤ → List AuthenticationStep → ℤ → ℤ
number_of n cs d = if any (λ c. eqb_ℤ n c.step) cs then n else d

pub if_same : (b : Bool) (n : ℤ) → (if b then n else n) ≡ n
if_same true n = refl
if_same false n = refl

number_of-next :
    (n : ℤ) (c : AuthenticationStep) (cs : List AuthenticationStep) (d : ℤ)
    → number_of n cs (if eqb_ℤ n c.step then c.step else d) ≡ number_of n (c ∷ cs) d
unfolding any
number_of-next n c cs d = elim (Bool-cases (eqb_ℤ n c.step)) [
  | inl e ↦ rw e (
      ap (λ x. if any (λ c. eqb_ℤ n c.step) cs then n else x) (sym ((eqb_ℤ_iff n c.step).0 e))
      ∙ if_same _ n)
  | inr e ↦ rw e refl
]

pub map-kept_steps :
    (a : Application) (cs : List AuthenticationStep) (s t : ℤ)
    → All IsReadable cs
    → map_steps_from
        (record { steps = []; sub = s; attr = t })
        (map kept_step (map (build_authentication_step a) cs))
      ≡ done (record {
        steps = cs;
        sub = number_of a.step_for_subject cs s;
        attr = number_of a.step_for_attributes cs t;
      })
unfolding map_steps_from build_authentication_step any
map-kept_steps a [] s t h = refl
map-kept_steps a (c ∷ cs) s t (h, hs) =
    let s' : ℤ = if eqb_ℤ a.step_for_subject c.step then c.step else s in
    let t' : ℤ = if eqb_ℤ a.step_for_attributes c.step then c.step else t in
    rw (map-kept_step a c h, map-kept_steps a cs s' t' hs)
      (λ i. done (record {
        steps = c ∷ cs;
        sub = number_of-next a.step_for_subject c cs s i;
        attr = number_of-next a.step_for_attributes c cs t i;
      }))

-- The steps' numbers before any step is read.
abbrev pub default_number : List AuthenticationStep → ℤ
default_number [] = pos 1
default_number (_ ∷ _) = pos 0

pub map-build_steps :
    (a : Application)
    → All IsReadable (elems a.authentication_steps)
    → (let cs = elems a.authentication_steps in
        map_authentication_steps (map kept_step (build_authentication_steps a))
        ≡ done (record {
          steps = cs;
          sub = number_of a.step_for_subject cs (default_number cs);
          attr = number_of a.step_for_attributes cs (default_number cs);
        }))
unfolding build_authentication_steps map_authentication_steps any
map-build_steps a h = go (elems a.authentication_steps) h
  where
    go :
        (cs : List AuthenticationStep)
        → All IsReadable cs
        → map_authentication_steps (map kept_step (map (build_authentication_step a) cs))
          ≡ done (record {
            steps = cs;
            sub = number_of a.step_for_subject cs (default_number cs);
            attr = number_of a.step_for_attributes cs (default_number cs);
          })
    go [] h = refl
    go (c ∷ cs) h = map-kept_steps a (c ∷ cs) (pos 0) (pos 0) h

pub enabled-build_inbound :
    (a : Application)
    → (is_oauth_enabled (map kept_inbound (build_inbound_auth_config a)) ≡ given a.oauth2)
      × (is_saml_enabled (map kept_inbound (build_inbound_auth_config a)) ≡ given a.saml)
unfolding is_oauth_enabled is_saml_enabled build_inbound_auth_config any
enabled-build_inbound a = go a.oauth2 a.saml
  where
    go :
        (o : Option OAuth2Config) (s : Option SamlConfig)
        → (is_oauth_enabled
              (map kept_inbound (build_inbound_auth_config (record a { oauth2 = o; saml = s })))
            ≡ given o)
          × (is_saml_enabled
                (map kept_inbound (build_inbound_auth_config (record a { oauth2 = o; saml = s })))
              ≡ given s)
    go none none = (refl, refl)
    go none (some y) = (refl, refl)
    go (some x) none = (refl, refl)
    go (some x) (some y) = (refl, refl)
