-- ===== src/Wso2/Map/Application.antt =====
-- internal/wso2/mapper.go: `mapGetApplication` and its helpers.
use wso2is_operator.Base.{
  String, Bool, false, List, [], ◌∷◌, map, Option, none, some, appended, ℤ, pos, ◌==◌, any,
  if◌then◌else◌,
}
use wso2is_operator.Base.Exit.{Exit, done, panicked, nil_dereference, index_out_of_range, ◌>>=◌}
use wso2is_operator.Wso2.App.{
  Claim, OAuth2Config, SamlConfig, AuthenticationStep, Application, zero_oauth2_config,
  zero_saml_config,
}
use wso2is_operator.Wso2.Soap.Envelope.{ResponseEnvelope}
use wso2is_operator.Wso2.Soap.ProviderReply.{
  LocalAuthenticatorConfigResponse, FederatedAuthenticatiorConfigResponse,
  FederatedIdentityProvidersResponse, AuthenticationStepResponse, ClaimMappingResponse,
  InboundAuthenticationRequestConfigResponse, ServiceProviderResponse, GetApplicationResponseBody,
}

unfoldable pub map_local_authenticators : List LocalAuthenticatorConfigResponse → List String
map_local_authenticators = map (λ c. c.name)

unfoldable pub map_federated_idp : List FederatedIdentityProvidersResponse → String
map_federated_idp [] = ""
map_federated_idp (p ∷ _) = p.identity_provider_name

abbrev pub first_name : List FederatedAuthenticatiorConfigResponse → Exit String
first_name [] = panicked index_out_of_range
first_name (a ∷ _) = done a.name

-- The index expression `FederatedAuthenticatiorConfig[0]` panics on an empty slice.
unfoldable pub map_federated_authenticator : List FederatedIdentityProvidersResponse → Exit String
map_federated_authenticator [] = done ""
map_federated_authenticator (p ∷ _) = first_name p.federated_authenticatior_config

unfoldable pub map_authentication_step : AuthenticationStepResponse → Exit AuthenticationStep
unfolding map_local_authenticators map_federated_idp map_federated_authenticator
map_authentication_step c = do
  authenticator ← map_federated_authenticator c.federated_identity_providers
  done (record {
    step = c.step_order;
    local_authenticators = map_local_authenticators c.local_authenticator_configs;
    federated_idp = map_federated_idp c.federated_identity_providers;
    federated_authenticator = authenticator;
  })

pub record MappedSteps : Type 0 where
  pub steps : List AuthenticationStep
  pub sub : ℤ
  pub attr : ℤ

-- The loop of `mapAuthenticationSteps`, over its named results.
unfoldable pub map_steps_from : MappedSteps → List AuthenticationStepResponse → Exit MappedSteps
unfolding map_authentication_step
map_steps_from m [] = done m
map_steps_from m (c ∷ cs) = do
  step ← map_authentication_step c
  rest ←
      map_steps_from
        (record {
          steps = [];
          sub = if c.subject_step then c.step_order else m.sub;
          attr = if c.attribute_step then c.step_order else m.attr;
        })
        cs
  done (record rest { steps = step ∷ rest.steps })

unfoldable pub map_authentication_steps : List AuthenticationStepResponse → Exit MappedSteps
unfolding map_steps_from
map_authentication_steps [] = done (record { steps = []; sub = pos 1; attr = pos 1 })
map_authentication_steps (c ∷ cs) =
    map_steps_from (record { steps = []; sub = pos 0; attr = pos 0 }) (c ∷ cs)

unfoldable pub map_claims : List ClaimMappingResponse → List Claim
map_claims [] = []
map_claims (c ∷ cs) =
    record { uri = c.local_claim.claim_uri; mandatory = c.mandatory } ∷ map_claims cs

unfoldable pub is_oauth_enabled : List InboundAuthenticationRequestConfigResponse → Bool
unfolding any
is_oauth_enabled = any (λ v. v.inbound_auth_type == "oauth2")

unfoldable pub is_saml_enabled : List InboundAuthenticationRequestConfigResponse → Bool
unfolding any
is_saml_enabled = any (λ v. v.inbound_auth_type == "samlsso")

-- `&OAuth2Config{Enabled: b}` and `&SAMLConfig{Enabled: b}`.
abbrev pub oauth2_enabled : Bool → OAuth2Config
oauth2_enabled b = record zero_oauth2_config { enabled = b }

abbrev pub saml_enabled : Bool → SamlConfig
saml_enabled b = record zero_saml_config { enabled = b }

-- Dereferencing a pointer.
abbrev deref : {A : Type 0} → Option A → Exit A
deref none = panicked nil_dereference
deref (some a) = done a

unfoldable pub map_service_provider : ServiceProviderResponse → Exit Application
unfolding map_authentication_steps map_claims is_oauth_enabled is_saml_enabled
map_service_provider sp = do
  lab ← deref sp.local_and_outbound_authentication_config
  mapped ← map_authentication_steps lab.authentication_steps
  claims ← deref sp.claim_config
  inbound ← deref sp.inbound_authentication_config
  done (record {
    id = sp.application_id;
    resource_id = sp.application_resource_id;
    name = sp.application_name;
    description = sp.description;
    claims = map_claims claims.claim_mappings;
    subject_claim_uri = lab.subject_claim_uri;
    oauth2 =
        some (oauth2_enabled (is_oauth_enabled inbound.inbound_authentication_request_configs));
    saml = some (saml_enabled (is_saml_enabled inbound.inbound_authentication_request_configs));
    authentication_steps = appended mapped.steps;
    authentication_script = lab.authentication_script_config.content;
    always_send_back_authenticated_list_of_idps = false;
    enable_authorization = lab.enable_authorization;
    skip_consent = lab.skip_consent;
    skip_logout_consent = lab.skip_logout_consent;
    use_tenant_in_sub = lab.use_tenant_domain_in_local_subject_identifier;
    use_userstore_in_sub = lab.use_userstore_domain_in_local_subject_identifier;
    use_userstore_in_roles = lab.use_userstore_domain_in_roles;
    step_for_subject = mapped.sub;
    step_for_attributes = mapped.attr;
  })

unfoldable pub map_get_application : ResponseEnvelope GetApplicationResponseBody → Exit Application
unfolding map_service_provider
map_get_application r = map_service_provider r.body.get_application_response.service_provider
