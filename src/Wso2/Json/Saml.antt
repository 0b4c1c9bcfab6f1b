-- ===== src/Wso2/Json/Saml.antt =====
-- internal/wso2/application.go: how `SAMLConfig` is written as JSON, from its struct tags.
use wso2is_operator.Base.{String, Slice, [], ◌∷◌, none, some, elems, appended, ◌≡◌, refl, ap}
use wso2is_operator.Wso2.App.{SamlConfig}
use wso2is_operator.Wso2.Json.{
  arr, bool, field, end, Fields, opt, strs, slice_nonempty, opt_bool, opt_str, opt_strs, get,
  read_bool, read_str, read_strs, reads,
}

unfoldable pub saml_fields : SamlConfig → Fields
saml_fields c = field "enabled" (bool c.enabled) (
    opt (slice_nonempty c.acs_urls) "acsURLs" (arr (strs (elems c.acs_urls))) (
      opt_strs "requestedAudiences" c.requested_audiences (
        opt_strs "requestedRecipients" c.requested_recipients (
          opt_strs "idpInitSLOReturnToURLs" c.idp_init_slo_return_to_urls (
            opt_str "issuer" c.issuer (
              opt_str "issuerQualifier" c.issuer_qualifier (
                opt_str "defaultAssertionConsumerURL" c.default_assertion_consumer_url (
                  opt_str "nameIDFormat" c.name_id_format (
                    opt_str "nameIDClaimUri" c.name_id_claim_uri (
                      opt_str "certAlias" c.cert_alias (
                        opt_str "certificateContent" c.certificate_content (
                          opt_str "loginPageURL" c.login_page_url (
                            opt_str "idpEntityIDAlias" c.idp_entity_id_alias (
                              opt_str "signingAlgorithmURI" c.signing_algorithm_uri (
                                opt_str "digestAlgorithmURI" c.digest_algorithm_uri (
                                  opt_str "assertionEncryptionAlgorithmURI"
                                    c.assertion_encryption_algorithm_uri
                                    (opt_str "keyEncryptionAlgorithmURI"
                                      c.key_encryption_algorithm_uri
                                      (opt_str "sloRequestURL" c.slo_request_url (
                                        opt_str "sloResponseURL" c.slo_response_url (
                                          opt_str "frontChannelLogoutBinding"
                                            c.front_channel_logout_binding
                                            (opt_str "attributeConsumingServiceIndex"
                                              c.attribute_consuming_service_index
                                              (opt_str "supportedAssertionQueryRequestTypes"
                                                c.supported_assertion_query_request_types
                                                (opt_bool "doSignAssertions" c.do_sign_assertions (
                                                  opt_bool "doSignResponse" c.do_sign_response (
                                                    opt_bool "doSingleLogout" c.do_single_logout (
                                                      opt_bool "doFrontChannelLogout"
                                                        c.do_front_channel_logout
                                                        (opt_bool "doEnableEncryptedAssertion"
                                                          c.do_enable_encrypted_assertion
                                                          (opt_bool "doValidateSignatureInRequests"
                                                            c.do_validate_signature_in_requests
                                                            (opt_bool
                                                            "doValidateSignatureInArtifactResolve"
                                                            c.do_validate_signature_in_artifact_resolve
                                                            (opt_bool "enableAttributeProfile"
                                                            c.enable_attribute_profile
                                                            (opt_bool "enableAttributesByDefault"
                                                            c.enable_attributes_by_default
                                                            (opt_bool "enableSAML2ArtifactBinding"
                                                            c.enable_saml2_artifact_binding
                                                            (opt_bool
                                                            "assertionQueryRequestProfileEnabled"
                                                            c.assertion_query_request_profile_enabled
                                                            (opt_bool "iDPInitSSOEnabled"
                                                            c.idp_init_sso_enabled
                                                            (opt_bool "iDPInitSLOEnabled"
                                                            c.idp_init_slo_enabled
                                                            (opt_bool "samlECP" c.saml_ecp
                                                            end))))))))))))))))))))))))))))))))))))

pub read_saml : Fields → SamlConfig
read_saml fs = record {
  enabled = read_bool (get "enabled" fs);
  acs_urls = appended (read_strs (get "acsURLs" fs));
  requested_audiences = read_strs (get "requestedAudiences" fs);
  requested_recipients = read_strs (get "requestedRecipients" fs);
  idp_init_slo_return_to_urls = read_strs (get "idpInitSLOReturnToURLs" fs);
  issuer = read_str (get "issuer" fs);
  issuer_qualifier = read_str (get "issuerQualifier" fs);
  default_assertion_consumer_url = read_str (get "defaultAssertionConsumerURL" fs);
  name_id_format = read_str (get "nameIDFormat" fs);
  name_id_claim_uri = read_str (get "nameIDClaimUri" fs);
  cert_alias = read_str (get "certAlias" fs);
  certificate_content = read_str (get "certificateContent" fs);
  login_page_url = read_str (get "loginPageURL" fs);
  idp_entity_id_alias = read_str (get "idpEntityIDAlias" fs);
  signing_algorithm_uri = read_str (get "signingAlgorithmURI" fs);
  digest_algorithm_uri = read_str (get "digestAlgorithmURI" fs);
  assertion_encryption_algorithm_uri = read_str (get "assertionEncryptionAlgorithmURI" fs);
  key_encryption_algorithm_uri = read_str (get "keyEncryptionAlgorithmURI" fs);
  slo_request_url = read_str (get "sloRequestURL" fs);
  slo_response_url = read_str (get "sloResponseURL" fs);
  front_channel_logout_binding = read_str (get "frontChannelLogoutBinding" fs);
  attribute_consuming_service_index = read_str (get "attributeConsumingServiceIndex" fs);
  supported_assertion_query_request_types = read_str (get "supportedAssertionQueryRequestTypes" fs);
  do_sign_assertions = read_bool (get "doSignAssertions" fs);
  do_sign_response = read_bool (get "doSignResponse" fs);
  do_single_logout = read_bool (get "doSingleLogout" fs);
  do_front_channel_logout = read_bool (get "doFrontChannelLogout" fs);
  do_enable_encrypted_assertion = read_bool (get "doEnableEncryptedAssertion" fs);
  do_validate_signature_in_requests = read_bool (get "doValidateSignatureInRequests" fs);
  do_validate_signature_in_artifact_resolve =
      read_bool (get "doValidateSignatureInArtifactResolve" fs);
  enable_attribute_profile = read_bool (get "enableAttributeProfile" fs);
  enable_attributes_by_default = read_bool (get "enableAttributesByDefault" fs);
  enable_saml2_artifact_binding = read_bool (get "enableSAML2ArtifactBinding" fs);
  assertion_query_request_profile_enabled =
      read_bool (get "assertionQueryRequestProfileEnabled" fs);
  idp_init_sso_enabled = read_bool (get "iDPInitSSOEnabled" fs);
  idp_init_slo_enabled = read_bool (get "iDPInitSLOEnabled" fs);
  saml_ecp = read_bool (get "samlECP" fs);
}

-- The JSON holds every field; of the ACS URLs it does not tell nil from empty.
pub read-saml_fields :
    (c : SamlConfig)
    → read_saml (saml_fields c) ≡ record c { acs_urls = appended (elems c.acs_urls) }
unfolding read_saml saml_fields
read-saml_fields c = simp reads

opt_slice_canonical :
    (xs : Slice String) (fs : Fields)
    → opt
        (slice_nonempty (appended (elems xs)))
        "acsURLs"
        (arr (strs (elems (appended (elems xs)))))
        fs
      ≡ opt (slice_nonempty xs) "acsURLs" (arr (strs (elems xs))) fs
opt_slice_canonical none fs = refl
opt_slice_canonical (some []) fs = refl
opt_slice_canonical (some (x ∷ xs)) fs = refl

pub saml_fields-canonical :
    (c : SamlConfig)
    → saml_fields (record c { acs_urls = appended (elems c.acs_urls) }) ≡ saml_fields c
unfolding saml_fields
saml_fields-canonical c = ap (field "enabled" (bool c.enabled)) (opt_slice_canonical c.acs_urls _)
