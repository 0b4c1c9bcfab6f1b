-- ===== src/Wso2/Soap/ProviderReply.antt =====
-- internal/wso2/soap.go: the service provider as WSO2 Identity Server returns it.
use wso2is_operator.Base.{String, Bool, List, Option, ℤ}

pub record ClaimResponse : Type 0 where
  pub claim_uri : String

pub record ClaimMappingResponse : Type 0 where
  pub local_claim : ClaimResponse
  pub remote_claim : ClaimResponse
  pub mandatory : Bool
  pub requested : Bool

pub record ClaimConfigResponse : Type 0 where
  pub always_send_mapped_local_subject_id : String
  pub local_claim_dialect : String
  pub claim_mappings : List ClaimMappingResponse
  pub user_claim_uri : String

pub record PropertyResponse : Type 0 where
  pub name : String
  pub value : String

pub record InboundAuthenticationRequestConfigResponse : Type 0 where
  pub inbound_auth_key : String
  pub inbound_auth_type : String
  pub properties : List PropertyResponse

pub record InboundAuthenticationConfigResponse : Type 0 where
  pub inbound_authentication_request_configs : List InboundAuthenticationRequestConfigResponse

pub record FederatedAuthenticatiorConfigResponse : Type 0 where
  pub display_name : String
  pub name : String
  pub valid : Bool

pub record LocalAuthenticatorConfigResponse : Type 0 where
  pub display_name : String
  pub name : String
  pub valid : Bool

pub record AuthenticationScriptConfigResponse : Type 0 where
  pub content : String
  pub enabled : Bool
  pub language : String

pub record FederatedIdentityProvidersResponse : Type 0 where
  pub federated_authenticatior_config : List FederatedAuthenticatiorConfigResponse
  pub identity_provider_name : String

pub record AuthenticationStepResponse : Type 0 where
  pub federated_identity_providers : List FederatedIdentityProvidersResponse
  pub local_authenticator_configs : List LocalAuthenticatorConfigResponse
  pub step_order : ℤ
  pub subject_step : Bool
  pub attribute_step : Bool

pub record LocalAndOutboundAuthenticationConfigResponse : Type 0 where
  pub always_send_back_authenticated_list_of_idps : Bool
  pub authentication_steps : List AuthenticationStepResponse
  pub authentication_script_config : AuthenticationScriptConfigResponse
  pub authentication_type : String
  pub subject_claim_uri : String
  pub authentication_script : String
  pub enable_authorization : Bool
  pub skip_consent : Bool
  pub skip_logout_consent : Bool
  pub use_tenant_domain_in_local_subject_identifier : Bool
  pub use_userstore_domain_in_local_subject_identifier : Bool
  pub use_userstore_domain_in_roles : Bool

pub record ServiceProviderResponse : Type 0 where
  pub application_id : ℤ
  pub application_resource_id : String
  pub application_name : String
  pub description : String
  pub claim_config : Option ClaimConfigResponse
  pub inbound_authentication_config : Option InboundAuthenticationConfigResponse
  pub local_and_outbound_authentication_config : Option LocalAndOutboundAuthenticationConfigResponse

pub record GetApplicationResponse : Type 0 where
  pub service_provider : ServiceProviderResponse

pub record GetApplicationResponseBody : Type 0 where
  pub get_application_response : GetApplicationResponse
