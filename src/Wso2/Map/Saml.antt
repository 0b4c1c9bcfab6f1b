-- ===== src/Wso2/Map/Saml.antt =====
-- internal/wso2/mapper.go: `mapSAMLApplication`.
use wso2is_operator.Base.{false, none, some}
use wso2is_operator.Base.Exit.{Exit, done, panicked, nil_dereference}
use wso2is_operator.Wso2.App.{SamlConfig}
use wso2is_operator.Wso2.Soap.Envelope.{ResponseEnvelope}
use wso2is_operator.Wso2.Soap.Saml.{SamlSsoServiceProviderDtoResponse, GetSamlSpResponseBody}

-- The literal of `mapSAMLApplication`. The fields that it leaves out are zero.
unfoldable pub saml_config : SamlSsoServiceProviderDtoResponse → SamlConfig
saml_config saml_cfg = record {
  enabled = false;
  acs_urls = saml_cfg.assertion_consumer_urls;
  requested_audiences = saml_cfg.requested_audiences;
  requested_recipients = saml_cfg.requested_recipients;
  idp_init_slo_return_to_urls = saml_cfg.idp_init_slo_return_to_urls;
  issuer = saml_cfg.issuer;
  issuer_qualifier = saml_cfg.issuer_qualifier;
  default_assertion_consumer_url = saml_cfg.default_assertion_consumer_url;
  name_id_format = saml_cfg.name_id_format;
  name_id_claim_uri = "";
  cert_alias = saml_cfg.cert_alias;
  certificate_content = saml_cfg.certificate_content;
  login_page_url = saml_cfg.login_page_url;
  idp_entity_id_alias = saml_cfg.idp_entity_id_alias;
  signing_algorithm_uri = saml_cfg.signing_algorithm_uri;
  digest_algorithm_uri = saml_cfg.digest_algorithm_uri;
  assertion_encryption_algorithm_uri = saml_cfg.assertion_encryption_algorithm_uri;
  key_encryption_algorithm_uri = saml_cfg.key_encryption_algorithm_uri;
  slo_request_url = saml_cfg.slo_request_url;
  slo_response_url = saml_cfg.slo_response_url;
  front_channel_logout_binding = saml_cfg.front_channel_logout_binding;
  attribute_consuming_service_index = saml_cfg.attribute_consuming_service_index;
  supported_assertion_query_request_types = saml_cfg.supported_assertion_query_request_types;
  do_sign_assertions = saml_cfg.do_sign_assertions;
  do_sign_response = saml_cfg.do_sign_response;
  do_single_logout = saml_cfg.do_single_logout;
  do_front_channel_logout = saml_cfg.do_front_channel_logout;
  do_enable_encrypted_assertion = saml_cfg.do_enable_encrypted_assertion;
  do_validate_signature_in_requests = saml_cfg.do_validate_signature_in_requests;
  do_validate_signature_in_artifact_resolve = saml_cfg.do_validate_signature_in_artifact_resolve;
  enable_attribute_profile = saml_cfg.enable_attribute_profile;
  enable_attributes_by_default = saml_cfg.enable_attributes_by_default;
  enable_saml2_artifact_binding = saml_cfg.enable_saml2_artifact_binding;
  assertion_query_request_profile_enabled = saml_cfg.assertion_query_request_profile_enabled;
  idp_init_sso_enabled = saml_cfg.idp_init_sso_enabled;
  idp_init_slo_enabled = saml_cfg.idp_init_slo_enabled;
  saml_ecp = saml_cfg.saml_ecp;
}

-- The reply's `return` is a pointer, which `mapSAMLApplication` dereferences.
unfoldable pub map_saml_application : ResponseEnvelope GetSamlSpResponseBody → Exit SamlConfig
unfolding saml_config
map_saml_application r = elim r.body.response.return [
  | none ↦ panicked nil_dereference
  | some saml_cfg ↦ done (saml_config saml_cfg)
]
