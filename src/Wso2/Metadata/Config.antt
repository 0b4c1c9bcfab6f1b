-- ===== src/Wso2/Metadata/Config.antt =====
-- internal/wso2/saml.go: from a parsed descriptor to a SAML configuration, and the parsing functions.
-- `encoding/xml` is the parameter `unmarshal`.
pub mod Laws
use wso2is_operator.Base.{
  String, ◌<>◌, Bool, true, false, List, [], ◌∷◌, Option, none, some, ◌==◌, ◌||◌, find, any,
  if◌then◌else◌,
}
use wso2is_operator.Base.Text.{trim_space, to_lower}
use wso2is_operator.Base.Result.{Result, ok, err, ◌>>=◌}
use wso2is_operator.Wso2.App.{SamlConfig, zero_saml_config}
use wso2is_operator.Wso2.Metadata.Descriptor.{
  KeyDescriptor, Endpoint, SloEndpoint, AssertionConsumerService, AttributeConsumingService,
  IdpssoDescriptor, SpssoDescriptor, EntityDescriptor,
}
use wso2is_operator.Wso2.Metadata.Acs.{collect_acs_urls}
use wso2is_operator.Wso2.Metadata.Alias.{derive_alias}
use wso2is_operator.Wso2.Metadata.Slo.{
  SloConfig, parse_slo_endpoints, binding_http_post, binding_http_redirect, binding_http_artifact,
}

-- `xmlBool.UnmarshalXML` and `UnmarshalXMLAttr`: the value of an `xs:boolean`.
unfoldable pub xml_bool : String → Bool
xml_bool s = s == "true" || s == "1"

-- The trimmed certificate of a key descriptor.
abbrev pub raw_cert : KeyDescriptor → String
raw_cert kd = trim_space kd.key_info.x509_data.x509_certificate

abbrev pub signs : KeyDescriptor → Bool
signs kd = to_lower kd.key_use == "signing" || to_lower kd.key_use == ""

abbrev pub encrypts : KeyDescriptor → Bool
encrypts kd = to_lower kd.key_use == "encryption" || to_lower kd.key_use == ""

-- The first signing certificate is kept.
abbrev keep_cert : String → SamlConfig → String → SamlConfig
keep_cert entity_id cfg raw =
    if cfg.certificate_content == ""
    then record cfg { certificate_content = raw; cert_alias = derive_alias raw entity_id }
    else cfg

abbrev allow_encryption : SamlConfig → SamlConfig
allow_encryption cfg = record cfg { do_enable_encrypted_assertion = true }

-- One round of the loop over the key descriptors in `spConfigFromDescriptor`.
unfoldable pub sp_key_round : String → SamlConfig → KeyDescriptor → SamlConfig
sp_key_round entity_id cfg kd =
    if raw_cert kd == ""
    then cfg
    else let cfg' = if signs kd then keep_cert entity_id cfg (raw_cert kd) else cfg in
      if encrypts kd then allow_encryption cfg' else cfg'

unfoldable pub sp_key_loop : String → SamlConfig → List KeyDescriptor → SamlConfig
unfolding sp_key_round
sp_key_loop entity_id cfg [] = cfg
sp_key_loop entity_id cfg (kd ∷ kds) = sp_key_loop entity_id (sp_key_round entity_id cfg kd) kds

-- The first NameID format, trimmed.
abbrev name_id_format_of : List String → String
name_id_format_of [] = ""
name_id_format_of (f ∷ _) = trim_space f

abbrev with_slo : SamlConfig → SloConfig → SamlConfig
with_slo cfg slo = record cfg {
  do_single_logout = slo.do_single_logout;
  do_front_channel_logout = slo.do_front_channel;
  front_channel_logout_binding = slo.front_channel_binding;
  slo_request_url = slo.request_url;
  slo_response_url = slo.response_url;
}

abbrev is_artifact : AssertionConsumerService → Bool
is_artifact acs = acs.binding == binding_http_artifact

-- The configuration that `spConfigFromDescriptor` has built before the loop over the keys.
unfoldable pub sp_base : String → SpssoDescriptor → SamlConfig
unfolding any
sp_base entity_id sp =
    let (acs_urls, default_acs) = collect_acs_urls sp.assertion_consumer_services in
    with_slo
      (record zero_saml_config {
        issuer = entity_id;
        do_validate_signature_in_requests = sp.authn_requests_signed;
        do_sign_assertions = sp.want_assertions_signed;
        do_sign_response = true;
        name_id_format = name_id_format_of sp.name_id_formats;
        acs_urls = acs_urls;
        default_assertion_consumer_url = default_acs;
        enable_saml2_artifact_binding = any is_artifact sp.assertion_consumer_services;
      })
      (parse_slo_endpoints sp.single_logout_services)

abbrev with_attributes : List AttributeConsumingService → SamlConfig → SamlConfig
with_attributes [] cfg = cfg
with_attributes (_ ∷ _) cfg = record cfg {
  enable_attribute_profile = true;
  enable_attributes_by_default = true;
}

unfoldable pub sp_config_from_descriptor : String → SpssoDescriptor → SamlConfig
unfolding sp_base sp_key_loop
sp_config_from_descriptor entity_id sp =
    with_attributes sp.attribute_consuming_services
      (sp_key_loop entity_id (sp_base entity_id sp) sp.key_descriptors)

abbrev location_or_empty : Option Endpoint → String
location_or_empty none = ""
location_or_empty (some ep) = ep.location

abbrev pub posts_to : Endpoint → Bool
posts_to ep = ep.binding == binding_http_post

abbrev pub redirects_to : Endpoint → Bool
redirects_to ep = ep.binding == binding_http_redirect

-- The two loops over the sign-on endpoints, each of which ends at its first match.
unfoldable pub login_page_url : List Endpoint → String
unfolding find
login_page_url eps =
    let post = location_or_empty (find posts_to eps) in
    if post == "" then location_or_empty (find redirects_to eps) else post

abbrev idp_key : String → SamlConfig → KeyDescriptor → SamlConfig
idp_key entity_id cfg kd = record cfg {
  certificate_content = raw_cert kd;
  cert_alias = derive_alias (raw_cert kd) entity_id;
}

-- The loop over the key descriptors in `idpConfigFromDescriptor`, which ends at its first match.
unfoldable pub idp_key_loop : String → SamlConfig → List KeyDescriptor → SamlConfig
idp_key_loop entity_id cfg [] = cfg
idp_key_loop entity_id cfg (kd ∷ kds) =
    let rest = idp_key_loop entity_id cfg kds in
    if raw_cert kd == "" then rest else if signs kd then idp_key entity_id cfg kd else rest

-- The configuration that `idpConfigFromDescriptor` has built before the loop over the keys.
unfoldable pub idp_base : String → IdpssoDescriptor → SamlConfig
unfolding login_page_url
idp_base entity_id idp =
    with_slo
      (record zero_saml_config {
        issuer = entity_id;
        do_validate_signature_in_requests = idp.want_authn_requests_signed;
        do_sign_response = true;
        do_sign_assertions = true;
        name_id_format = name_id_format_of idp.name_id_formats;
        login_page_url = login_page_url idp.single_sign_on_services;
      })
      (parse_slo_endpoints idp.single_logout_services)

unfoldable pub idp_config_from_descriptor : String → IdpssoDescriptor → SamlConfig
unfolding idp_key_loop idp_base
idp_config_from_descriptor entity_id idp =
    idp_key_loop entity_id (idp_base entity_id idp) idp.key_descriptors

module _ (unmarshal : String → Result EntityDescriptor) where
  unfoldable pub parse_xml : String → Result EntityDescriptor
  parse_xml bytes = elim (unmarshal bytes) [
    | err e ↦ err ("parse metadata XML: " <> e)
    | ok ed ↦
        if ed.entity_id == "" then err "metadata is missing required entityID attribute" else ok ed
  ]

  unfoldable pub parse_sp_metadata : String → Result SamlConfig
  unfolding parse_xml
  parse_sp_metadata bytes = do
    ed ← parse_xml bytes
    elim ed.spsso_descriptor [
      | none ↦ err "metadata contains no SPSSODescriptor"
      | some sp ↦ ok (sp_config_from_descriptor ed.entity_id sp)
    ]

  unfoldable pub parse_idp_metadata : String → Result SamlConfig
  unfolding parse_xml
  parse_idp_metadata bytes = do
    ed ← parse_xml bytes
    elim ed.idpsso_descriptor [
      | none ↦ err "metadata contains no IDPSSODescriptor"
      | some idp ↦ ok (idp_config_from_descriptor ed.entity_id idp)
    ]
