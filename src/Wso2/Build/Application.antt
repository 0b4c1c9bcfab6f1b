-- ===== src/Wso2/Build/Application.antt =====
-- internal/wso2/builder.go: the requests about applications.
use wso2is_operator.Base.{
  String, Bool, true, false, not, List, [], ◌∷◌, ◌++◌, map, Option, none, some,
}
use wso2is_operator.Base.{elems, pos, eqb_ℤ, ◌==◌, ◌||◌, if◌then◌else◌}
use wso2is_operator.Wso2.App.{Claim, Application, AuthenticationStep, OAuth2Config, SamlConfig}
use wso2is_operator.Wso2.Soap.Envelope.{RequestEnvelope, soap_env_ns, axis_ns, common_ns}
use wso2is_operator.Wso2.Soap.Provider.{
  ClaimMappingRequest, InboundAuthenticationRequestConfigRequest, LocalAuthenticatorConfigRequest,
  FederatedAuthenticatiorConfigRequest, FederatedIdentityProvidersRequest,
  AuthenticationStepRequest, AuthenticationScriptConfigRequest,
  LocalAndOutboundAuthenticationConfigRequest, ServiceProviderRequest, CreateApplicationBody,
  GetApplicationBody, UpdateApplicationBody, DeleteApplicationBody,
}

unfoldable pub build_claim_config : List Claim → List ClaimMappingRequest
build_claim_config [] = []
build_claim_config (c ∷ cs) =
    record {
      local_claim = record { claim_uri = c.uri };
      remote_claim = record { claim_uri = c.uri };
      mandatory = c.mandatory;
      requested = true;
    }
    ∷ build_claim_config cs

abbrev oauth2_inbound : Option OAuth2Config → List InboundAuthenticationRequestConfigRequest
oauth2_inbound none = []
oauth2_inbound (some o) =
    record {
      inbound_auth_key = o.oauth_consumer_key;
      inbound_auth_type = "oauth2";
      properties = record { name = "oauthConsumerSecret"; value = o.oauth_consumer_secret } ∷ [];
    }
    ∷ []

abbrev saml_inbound : Option SamlConfig → List InboundAuthenticationRequestConfigRequest
saml_inbound none = []
saml_inbound (some s) =
    record {
      inbound_auth_key = s.issuer;
      inbound_auth_type = "samlsso";
      properties =
          record { name = "attrConsumServiceIndex"; value = s.attribute_consuming_service_index }
          ∷ [];
    }
    ∷ []

unfoldable pub build_inbound_auth_config :
    Application → List InboundAuthenticationRequestConfigRequest
build_inbound_auth_config sp =
    oauth2_inbound sp.oauth2
    ++ (saml_inbound sp.saml
        ++ (record { inbound_auth_key = sp.name; inbound_auth_type = "openid"; properties = [] }
            ∷ record {
              inbound_auth_key = sp.name;
              inbound_auth_type = "passivests";
              properties = [];
            }
            ∷ []))

unfoldable pub build_local_authenticators : List String → List LocalAuthenticatorConfigRequest
build_local_authenticators [] = []
build_local_authenticators (c ∷ la) =
    record { display_name = ""; name = c; valid = true } ∷ build_local_authenticators la

unfoldable pub build_federated_authenticators :
    AuthenticationStep → List FederatedAuthenticatiorConfigRequest
build_federated_authenticators st =
    if st.federated_authenticator == ""
    then []
    else record { display_name = ""; name = st.federated_authenticator; valid = true } ∷ []

abbrev is_nonempty {ℓ} : {A : Type ℓ} → List A → Bool
is_nonempty [] = false
is_nonempty (_ ∷ _) = true

-- The `federatedIdentityProviders` of one round of the loop of `buildAuthenticationSteps`.
unfoldable pub build_federated_providers :
    AuthenticationStep → Option (List FederatedIdentityProvidersRequest)
unfolding build_federated_authenticators
build_federated_providers c =
    let feds = build_federated_authenticators c in
    if is_nonempty feds || not (c.federated_idp == "")
    then some (
        record { federated_authenticatior_config = feds; identity_provider_name = c.federated_idp }
        ∷ [])
    else none

unfoldable pub build_authentication_step :
    Application → AuthenticationStep → AuthenticationStepRequest
unfolding build_local_authenticators build_federated_providers
build_authentication_step sp c = record {
  federated_identity_providers = build_federated_providers c;
  local_authenticator_configs = build_local_authenticators c.local_authenticators;
  step_order = c.step;
  subject_step = eqb_ℤ sp.step_for_subject c.step;
  attribute_step = eqb_ℤ sp.step_for_attributes c.step;
}

unfoldable pub build_authentication_steps : Application → List AuthenticationStepRequest
unfolding build_authentication_step
build_authentication_steps sp = map (build_authentication_step sp) (elems sp.authentication_steps)

unfoldable pub build_authentication_script_config : Application → AuthenticationScriptConfigRequest
build_authentication_script_config sp =
    if sp.authentication_script == ""
    then record { content = ""; enabled = false; language = "" }
    else record {
      content = sp.authentication_script;
      enabled = true;
      language = "application/javascript";
    }

unfoldable pub build_local_and_outbound_config :
    Application → LocalAndOutboundAuthenticationConfigRequest
unfolding build_authentication_steps build_authentication_script_config
build_local_and_outbound_config sp = record {
  always_send_back_authenticated_list_of_idps = sp.always_send_back_authenticated_list_of_idps;
  authentication_script_config = build_authentication_script_config sp;
  authentication_steps = build_authentication_steps sp;
  authentication_type = "flow";
  subject_claim_uri = sp.subject_claim_uri;
  authentication_script = "";
  enable_authorization = sp.enable_authorization;
  skip_consent = sp.skip_consent;
  skip_logout_consent = sp.skip_logout_consent;
  use_tenant_domain_in_local_subject_identifier = sp.use_tenant_in_sub;
  use_userstore_domain_in_local_subject_identifier = sp.use_userstore_in_sub;
  use_userstore_domain_in_roles = sp.use_userstore_in_roles;
}

unfoldable pub build_get_application : String → RequestEnvelope GetApplicationBody
build_get_application name = record {
  soap_env = soap_env_ns;
  xsd = axis_ns;
  xsd1 = "";
  body = record { get_application = record { application_name = name } };
}

unfoldable pub build_create_application : Application → RequestEnvelope CreateApplicationBody
build_create_application a = record {
  soap_env = soap_env_ns;
  xsd = axis_ns;
  xsd1 = common_ns;
  body = record {
    create_application = record {
      service_provider = record {
        application_id = pos 0;
        application_resource_id = "";
        application_name = a.name;
        description = a.description;
        claim_config = none;
        inbound_authentication_config = none;
        local_and_outbound_authentication_config = none;
      };
    };
  };
}

-- The service provider of `buildUpdateApplication`.
unfoldable pub update_service_provider : Application → ServiceProviderRequest
unfolding build_claim_config build_inbound_auth_config build_local_and_outbound_config
update_service_provider a = record {
  application_id = a.id;
  application_resource_id = "";
  application_name = a.name;
  description = a.description;
  claim_config = some (record {
    always_send_mapped_local_subject_id = "true";
    local_claim_dialect = true;
    claim_mappings = build_claim_config a.claims;
    user_claim_uri = a.subject_claim_uri;
  });
  inbound_authentication_config =
      some (record { inbound_authentication_request_configs = build_inbound_auth_config a });
  local_and_outbound_authentication_config = some (build_local_and_outbound_config a);
}

unfoldable pub build_update_application : Application → RequestEnvelope UpdateApplicationBody
unfolding update_service_provider
build_update_application a = record {
  soap_env = soap_env_ns;
  xsd = axis_ns;
  xsd1 = common_ns;
  body = record { update_application = record { service_provider = update_service_provider a } };
}

unfoldable pub build_delete_application : String → RequestEnvelope DeleteApplicationBody
build_delete_application name = record {
  soap_env = soap_env_ns;
  xsd = axis_ns;
  xsd1 = common_ns;
  body = record { delete_application = record { application_name = name } };
}
