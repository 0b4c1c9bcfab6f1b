-- ===== src/Wso2/Build/Saml.antt =====
-- internal/wso2/builder.go: the requests about SAML service providers.
use wso2is_operator.Base.{String}
use wso2is_operator.Wso2.App.{SamlConfig}
use wso2is_operator.Wso2.Soap.Envelope.{RequestEnvelope, soap_env_ns, axis_ns, common_ns}
use wso2is_operator.Wso2.Soap.Saml.{
  SamlSsoServiceProviderDtoRequest, CreateSamlApplicationBody, GetServiceProviderBody,
  RemoveSamlSpBody,
}

unfoldable pub build_get_saml_application : String → RequestEnvelope GetServiceProviderBody
build_get_saml_application issuer = record {
  soap_env = soap_env_ns;
  xsd = axis_ns;
  xsd1 = "";
  body = record { get_service_provider = record { issuer = issuer } };
}

-- The `SpDto` of `buildCreateSAMLApplication`.
unfoldable pub saml_dto : SamlConfig → SamlSsoServiceProviderDtoRequest
saml_dto cfg = record {
  assertion_consumer_urls = cfg.acs_urls;
  requested_audiences = cfg.requested_audiences;
  requested_recipients = cfg.requested_recipients;
  idp_init_slo_return_to_urls = cfg.idp_init_slo_return_to_urls;
  issuer = cfg.issuer;
  issuer_qualifier = cfg.issuer_qualifier;
  default_assertion_consumer_url = cfg.default_assertion_consumer_url;
  name_id_format = cfg.name_id_format;
  name_id_claim_uri = "";
  cert_alias = cfg.cert_alias;
  certificate_content = cfg.certificate_content;
  login_page_url = cfg.login_page_url;
  idp_entity_id_alias = cfg.idp_entity_id_alias;
  signing_algorithm_uri = cfg.signing_algorithm_uri;
  digest_algorithm_uri = cfg.digest_algorithm_uri;
  assertion_encryption_algorithm_uri = cfg.assertion_encryption_algorithm_uri;
  key_encryption_algorithm_uri = cfg.key_encryption_algorithm_uri;
  slo_request_url = cfg.slo_request_url;
  slo_response_url = cfg.slo_response_url;
  front_channel_logout_binding = cfg.front_channel_logout_binding;
  attribute_consuming_service_index = cfg.attribute_consuming_service_index;
  supported_assertion_query_request_types = cfg.supported_assertion_query_request_types;
  do_sign_assertions = cfg.do_sign_assertions;
  do_sign_response = cfg.do_sign_response;
  do_single_logout = cfg.do_single_logout;
  do_front_channel_logout = cfg.do_front_channel_logout;
  do_enable_encrypted_assertion = cfg.do_enable_encrypted_assertion;
  do_validate_signature_in_requests = cfg.do_validate_signature_in_requests;
  do_validate_signature_in_artifact_resolve = cfg.do_validate_signature_in_artifact_resolve;
  enable_attribute_profile = cfg.enable_attribute_profile;
  enable_attributes_by_default = cfg.enable_attributes_by_default;
  enable_saml2_artifact_binding = cfg.enable_saml2_artifact_binding;
  assertion_query_request_profile_enabled = cfg.assertion_query_request_profile_enabled;
  idp_init_sso_enabled = cfg.idp_init_sso_enabled;
  idp_init_slo_enabled = cfg.idp_init_slo_enabled;
  saml_ecp = cfg.saml_ecp;
}

unfoldable pub build_create_saml_application :
    SamlConfig → RequestEnvelope CreateSamlApplicationBody
unfolding saml_dto
build_create_saml_application cfg = record {
  soap_env = soap_env_ns;
  xsd = axis_ns;
  xsd1 = common_ns;
  body = record { create_saml_application_request = record { sp_dto = saml_dto cfg } };
}

unfoldable pub build_remove_saml_application : String → RequestEnvelope RemoveSamlSpBody
build_remove_saml_application issuer = record {
  soap_env = soap_env_ns;
  xsd = axis_ns;
  xsd1 = common_ns;
  body = record { remove_service_provider = record { issuer = issuer } };
}
