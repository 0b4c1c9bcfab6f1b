-- ===== src/Wso2/Soap/Saml.antt =====
-- internal/wso2/soap.go: the SAML service provider requests and replies.
use wso2is_operator.Base.{String, Bool, List, Option, Slice}

pub record SamlSsoServiceProviderDtoRequest : Type 0 where
  pub assertion_consumer_urls : Slice String
  pub requested_audiences : List String
  pub requested_recipients : List String
  pub idp_init_slo_return_to_urls : List String
  pub issuer : String
  pub issuer_qualifier : String
  pub default_assertion_consumer_url : String
  pub name_id_format : String
  pub name_id_claim_uri : String
  pub cert_alias : String
  pub certificate_content : String
  pub login_page_url : String
  pub idp_entity_id_alias : String
  pub signing_algorithm_uri : String
  pub digest_algorithm_uri : String
  pub assertion_encryption_algorithm_uri : String
  pub key_encryption_algorithm_uri : String
  pub slo_request_url : String
  pub slo_response_url : String
  pub front_channel_logout_binding : String
  pub attribute_consuming_service_index : String
  pub supported_assertion_query_request_types : String
  pub do_sign_assertions : Bool
  pub do_sign_response : Bool
  pub do_single_logout : Bool
  pub do_front_channel_logout : Bool
  pub do_enable_encrypted_assertion : Bool
  pub do_validate_signature_in_requests : Bool
  pub do_validate_signature_in_artifact_resolve : Bool
  pub enable_attribute_profile : Bool
  pub enable_attributes_by_default : Bool
  pub enable_saml2_artifact_binding : Bool
  pub assertion_query_request_profile_enabled : Bool
  pub idp_init_sso_enabled : Bool
  pub idp_init_slo_enabled : Bool
  pub saml_ecp : Bool

pub record SamlSsoServiceProviderDtoResponse : Type 0 where
  pub assertion_consumer_urls : Slice String
  pub requested_audiences : List String
  pub requested_recipients : List String
  pub idp_init_slo_return_to_urls : List String
  pub issuer : String
  pub issuer_qualifier : String
  pub default_assertion_consumer_url : String
  pub name_id_format : String
  pub name_id_claim_uri : String
  pub cert_alias : String
  pub certificate_content : String
  pub login_page_url : String
  pub idp_entity_id_alias : String
  pub signing_algorithm_uri : String
  pub digest_algorithm_uri : String
  pub assertion_encryption_algorithm_uri : String
  pub key_encryption_algorithm_uri : String
  pub slo_request_url : String
  pub slo_response_url : String
  pub front_channel_logout_binding : String
  pub attribute_consuming_service_index : String
  pub supported_assertion_query_request_types : String
  pub do_sign_assertions : Bool
  pub do_sign_response : Bool
  pub do_single_logout : Bool
  pub do_front_channel_logout : Bool
  pub do_enable_encrypted_assertion : Bool
  pub do_validate_signature_in_requests : Bool
  pub do_validate_signature_in_artifact_resolve : Bool
  pub enable_attribute_profile : Bool
  pub enable_attributes_by_default : Bool
  pub enable_saml2_artifact_binding : Bool
  pub assertion_query_request_profile_enabled : Bool
  pub idp_init_sso_enabled : Bool
  pub idp_init_slo_enabled : Bool
  pub saml_ecp : Bool

pub record CreateSamlApplicationRequest : Type 0 where
  pub sp_dto : SamlSsoServiceProviderDtoRequest

pub record CreateSamlApplicationBody : Type 0 where
  pub create_saml_application_request : CreateSamlApplicationRequest

pub record UpdateRpServiceProviderRequest : Type 0 where
  pub sp_dto : SamlSsoServiceProviderDtoRequest

pub record UpdateSamlSpBody : Type 0 where
  pub update_rp_service_provider : UpdateRpServiceProviderRequest

pub record GetServiceProviderRequest : Type 0 where
  pub issuer : String

pub record GetServiceProviderBody : Type 0 where
  pub get_service_provider : GetServiceProviderRequest

pub record RemoveServiceProviderRequest : Type 0 where
  pub issuer : String

pub record RemoveSamlSpBody : Type 0 where
  pub remove_service_provider : RemoveServiceProviderRequest

pub record GetSamlSpResponse : Type 0 where
  pub return : Option SamlSsoServiceProviderDtoResponse

pub record GetSamlSpResponseBody : Type 0 where
  pub response : GetSamlSpResponse
