-- ===== src/Tests/Metadata.antt =====
-- The theorems on SAML metadata, at concrete inputs.
use Prim.Native.String.{◌++◌}
use wso2is_operator.Base.{true, false, [], ◌∷◌, pos, ◌≡◌, refl, find, any, ne_of_eq_false}
use wso2is_operator.Wso2.Metadata.Descriptor.{
  KeyDescriptor, SloEndpoint, AssertionConsumerService, IdpssoDescriptor, SpssoDescriptor,
}
use wso2is_operator.Wso2.Metadata.Acs.{collect_acs_urls}
use wso2is_operator.Wso2.Metadata.Acs.Laws.{IsDefaultAcs, collect_acs_urls-IsDefaultAcs}
use wso2is_operator.Wso2.Metadata.Slo.{
  parse_slo_endpoints, binding_http_post, binding_http_redirect, binding_soap,
}
use wso2is_operator.Wso2.Metadata.Slo.Laws.{
  slo_spec, parse_slo_endpoints_lem, parse_slo_endpoints-soap_override,
}
use wso2is_operator.Wso2.Metadata.Alias.{derive_alias}
use wso2is_operator.Wso2.Metadata.Alias.Laws.{derive_alias-url}
use wso2is_operator.Wso2.Metadata.Config.{sp_config_from_descriptor, idp_config_from_descriptor}
use wso2is_operator.Wso2.Metadata.Config.Laws.{
  is_signing_key, is_encryption_key, cert_settings, cert_of, alias_of,
  sp_config_from_descriptor-cert_settings, sp_config-idp_config_same_cert,
}

abbrev first_acs : AssertionConsumerService
first_acs = record {
  binding = binding_http_post;
  location = "https://a/acs";
  index = pos 1;
  is_default = false;
}

abbrev second_acs : AssertionConsumerService
second_acs = record {
  binding = binding_http_post;
  location = "https://b/acs";
  index = pos 0;
  is_default = false;
}

collect_acs_urls-IsDefaultAcs_example :
    IsDefaultAcs (collect_acs_urls (first_acs ∷ second_acs ∷ [])).1 (first_acs ∷ second_acs ∷ [])
collect_acs_urls-IsDefaultAcs_example = collect_acs_urls-IsDefaultAcs first_acs (second_acs ∷ [])

-- No service is marked, so the URL with the lowest index is the default.
default_acs_test : (collect_acs_urls (first_acs ∷ second_acs ∷ [])).1 ≡ "https://b/acs"
unfolding collect_acs_urls
default_acs_test = refl

abbrev redirect_slo : SloEndpoint
redirect_slo = record {
  binding = binding_http_redirect;
  location = "https://a/slo";
  response_location = "";
}

abbrev soap_slo : SloEndpoint
soap_slo = record { binding = binding_soap; location = "https://a/soap"; response_location = "" }

abbrev empty_post : SloEndpoint
empty_post = record { binding = binding_http_post; location = ""; response_location = "" }

parse_slo_endpoints_lem_example :
    parse_slo_endpoints (soap_slo ∷ redirect_slo ∷ []) ≡ slo_spec (soap_slo ∷ redirect_slo ∷ [])
parse_slo_endpoints_lem_example =
    parse_slo_endpoints_lem (soap_slo ∷ redirect_slo ∷ [])
      (ne_of_eq_false "https://a/soap" "" refl, (ne_of_eq_false "https://a/slo" "" refl, tt))

parse_slo_endpoints-soap_override_example :
    parse_slo_endpoints (empty_post ∷ soap_slo ∷ []) ≡ record {
      do_single_logout = true;
      do_front_channel = true;
      front_channel_binding = binding_http_post;
      request_url = "https://a/soap";
      response_url = "https://a/soap";
    }
parse_slo_endpoints-soap_override_example =
    parse_slo_endpoints-soap_override empty_post soap_slo refl refl refl

derive_alias-url_example :
    derive_alias "MIIC" ("https" ++ ("://" ++ ("idp" ++ (":" ++ ("94" ++ ("/" ++ "saml"))))))
    ≡ "idp"
derive_alias-url_example =
    derive_alias-url "MIIC" "https" "idp" "94" "saml" (refl, (refl, (refl, (refl, (refl, tt)))))
      (refl, (refl, (refl, tt))) (refl, (refl, tt)) (refl, (refl, tt))
      (ne_of_eq_false "idp" "" refl)

abbrev signing_key : KeyDescriptor
signing_key = record {
  key_use = "signing";
  key_info = record { x509_data = record { x509_certificate = " MIIC " } };
}

abbrev sp_descriptor : SpssoDescriptor
sp_descriptor = record {
  authn_requests_signed = true;
  want_assertions_signed = true;
  key_descriptors = signing_key ∷ [];
  name_id_formats = [];
  assertion_consumer_services = first_acs ∷ [];
  attribute_consuming_services = [];
  single_logout_services = [];
}

abbrev idp_descriptor : IdpssoDescriptor
idp_descriptor = record {
  want_authn_requests_signed = true;
  key_descriptors = signing_key ∷ [];
  name_id_formats = [];
  single_sign_on_services = [];
  single_logout_services = [];
}

sp_config_from_descriptor-cert_settings_example :
    let kd = find is_signing_key (signing_key ∷ []) in
    cert_settings (sp_config_from_descriptor "https://a/sp" sp_descriptor)
    ≡ (cert_of kd, alias_of "https://a/sp" kd, any is_encryption_key (signing_key ∷ []))
sp_config_from_descriptor-cert_settings_example =
    sp_config_from_descriptor-cert_settings "https://a/sp" sp_descriptor

sp_config-idp_config_same_cert_example :
    ((sp_config_from_descriptor "https://a/sp" sp_descriptor).certificate_content
      ≡ (idp_config_from_descriptor "https://a/sp" idp_descriptor).certificate_content)
    × ((sp_config_from_descriptor "https://a/sp" sp_descriptor).cert_alias
        ≡ (idp_config_from_descriptor "https://a/sp" idp_descriptor).cert_alias)
sp_config-idp_config_same_cert_example =
    sp_config-idp_config_same_cert "https://a/sp" sp_descriptor idp_descriptor refl
