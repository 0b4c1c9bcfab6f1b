-- ===== src/Wso2/Soap/Provider.antt =====
-- internal/wso2/soap.go: the service provider requests, as `encoding/xml` marshals them.
use wso2is_operator.Base.{String, Bool, List, Option, ℤ}

pub record ClaimRequest : Type 0 where
  pub claim_uri : String

pub record ClaimMappingRequest : Type 0 where
  pub local_claim : ClaimRequest
  pub remote_claim : ClaimRequest
  pub mandatory : Bool
  pub requested : Bool

pub record ClaimConfigRequest : Type 0 where
  pub always_send_mapped_local_subject_id : String
  pub local_claim_dialect : Bool
  pub claim_mappings : List ClaimMappingRequest
  pub user_claim_uri : String

pub record PropertyRequest : Type 0 where
  pub name : String
  pub value : String

pub record InboundAuthenticationRequestConfigRequest : Type 0 where
  pub inbound_auth_key : String
  pub inbound_auth_type : String
  pub properties : List PropertyRequest

pub record InboundAuthenticationConfigRequest : Type 0 where
  pub inbound_authentication_request_configs : List InboundAuthenticationRequestConfigRequest

pub record FederatedAuthenticatiorConfigRequest : Type 0 where
  pub display_name : String
  pub name : String
  pub valid : Bool

pub record LocalAuthenticatorConfigRequest : Type 0 where
  pub display_name : String
  pub name : String
  pub valid : Bool

pub record AuthenticationScriptConfigRequest : Type 0 where
  pub content : String
  pub enabled : Bool
  pub language : String

pub record FederatedIdentityProvidersRequest : Type 0 where
  pub federated_authenticatior_config : List FederatedAuthenticatiorConfigRequest
  pub identity_provider_name : String

pub record AuthenticationStepRequest : Type 0 where
  pub federated_identity_providers : Option (List FederatedIdentityProvidersRequest)
  pub local_authenticator_configs : List LocalAuthenticatorConfigRequest
  pub step_order : ℤ
  pub subject_step : Bool
  pub attribute_step : Bool

pub record LocalAndOutboundAuthenticationConfigRequest : Type 0 where
  pub always_send_back_authenticated_list_of_idps : Bool
  pub authentication_script_config : AuthenticationScriptConfigRequest
  pub authentication_steps : List AuthenticationStepRequest
  pub authentication_type : String
  pub subject_claim_uri : String
  pub authentication_script : String
  pub enable_authorization : Bool
  pub skip_consent : Bool
  pub skip_logout_consent : Bool
  pub use_tenant_domain_in_local_subject_identifier : Bool
  pub use_userstore_domain_in_local_subject_identifier : Bool
  pub use_userstore_domain_in_roles : Bool

pub record ServiceProviderRequest : Type 0 where
  pub application_id : ℤ
  pub application_resource_id : String
  pub application_name : String
  pub description : String
  pub claim_config : Option ClaimConfigRequest
  pub inbound_authentication_config : Option InboundAuthenticationConfigRequest
  pub local_and_outbound_authentication_config : Option LocalAndOutboundAuthenticationConfigRequest

pub record CreateApplicationRequest : Type 0 where
  pub service_provider : ServiceProviderRequest

pub record CreateApplicationBody : Type 0 where
  pub create_application : CreateApplicationRequest

pub record GetApplicationRequest : Type 0 where
  pub application_name : String

pub record GetApplicationBody : Type 0 where
  pub get_application : GetApplicationRequest

pub record UpdateApplicationRequest : Type 0 where
  pub service_provider : ServiceProviderRequest

pub record UpdateApplicationBody : Type 0 where
  pub update_application : UpdateApplicationRequest

pub record DeleteApplicationRequest : Type 0 where
  pub application_name : String

pub record DeleteApplicationBody : Type 0 where
  pub delete_application : DeleteApplicationRequest
