-- ===== src/Wso2/App.antt =====
-- internal/wso2/application.go: what the operator wants an application to be, and what it reads back.
use wso2is_operator.Base.{String, Bool, false, List, [], Option, none, Slice, ℤ, pos}

pub record Claim : Type 0 where
  pub uri : String
  pub mandatory : Bool

pub record OAuth2Config : Type 0 where
  pub enabled : Bool
  pub callback_url : String
  pub grant_types : Slice String
  pub pkce_mandatory : Bool
  pub pkce_plain : Bool
  pub public_client : Bool
  pub token_binding : String
  pub audiences : List String
  pub scope_validators : List String
  pub refresh_token_expiry : ℤ
  pub access_token_expiry : ℤ
  pub oauth_consumer_key : String
  pub oauth_consumer_secret : String

pub record SamlConfig : Type 0 where
  pub enabled : Bool
  pub acs_urls : Slice String
  pub requested_audiences : List String
  pub requested_recipients : List String
  pub idp_init_slo_return_to_urls : List String
  pub issuer : String
  pub issuer_qualifier : String
  pub default_assertion_consumer_url : String
  pub name_id_format : String
  pub name_id_claim_uri : String
  pub cert_alias : String
  pub certificate_content : String
  pub login_page_url : String
  pub idp_entity_id_alias : String
  pub signing_algorithm_uri : String
  pub digest_algorithm_uri : String
  pub assertion_encryption_algorithm_uri : String
  pub key_encryption_algorithm_uri : String
  pub slo_request_url : String
  pub slo_response_url : String
  pub front_channel_logout_binding : String
  pub attribute_consuming_service_index : String
  pub supported_assertion_query_request_types : String
  pub do_sign_assertions : Bool
  pub do_sign_response : Bool
  pub do_single_logout : Bool
  pub do_front_channel_logout : Bool
  pub do_enable_encrypted_assertion : Bool
  pub do_validate_signature_in_requests : Bool
  pub do_validate_signature_in_artifact_resolve : Bool
  pub enable_attribute_profile : Bool
  pub enable_attributes_by_default : Bool
  pub enable_saml2_artifact_binding : Bool
  pub assertion_query_request_profile_enabled : Bool
  pub idp_init_sso_enabled : Bool
  pub idp_init_slo_enabled : Bool
  pub saml_ecp : Bool

pub record AuthenticationStep : Type 0 where
  pub step : ℤ
  pub local_authenticators : List String
  pub federated_idp : String
  pub federated_authenticator : String

pub record Application : Type 0 where
  pub id : ℤ
  pub resource_id : String
  pub name : String
  pub description : String
  pub claims : List Claim
  pub subject_claim_uri : String
  pub oauth2 : Option OAuth2Config
  pub saml : Option SamlConfig
  pub authentication_steps : Slice AuthenticationStep
  pub authentication_script : String
  pub always_send_back_authenticated_list_of_idps : Bool
  pub enable_authorization : Bool
  pub skip_consent : Bool
  pub skip_logout_consent : Bool
  pub use_tenant_in_sub : Bool
  pub use_userstore_in_sub : Bool
  pub use_userstore_in_roles : Bool
  pub step_for_subject : ℤ
  pub step_for_attributes : ℤ

-- The zero values of the two configurations.
abbrev pub zero_oauth2_config : OAuth2Config
zero_oauth2_config = record {
  enabled = false;
  callback_url = "";
  grant_types = none;
  pkce_mandatory = false;
  pkce_plain = false;
  public_client = false;
  token_binding = "";
  audiences = [];
  scope_validators = [];
  refresh_token_expiry = pos 0;
  access_token_expiry = pos 0;
  oauth_consumer_key = "";
  oauth_consumer_secret = "";
}

abbrev pub zero_saml_config : SamlConfig
zero_saml_config = record {
  enabled = false;
  acs_urls = none;
  requested_audiences = [];
  requested_recipients = [];
  idp_init_slo_return_to_urls = [];
  issuer = "";
  issuer_qualifier = "";
  default_assertion_consumer_url = "";
  name_id_format = "";
  name_id_claim_uri = "";
  cert_alias = "";
  certificate_content = "";
  login_page_url = "";
  idp_entity_id_alias = "";
  signing_algorithm_uri = "";
  digest_algorithm_uri = "";
  assertion_encryption_algorithm_uri = "";
  key_encryption_algorithm_uri = "";
  slo_request_url = "";
  slo_response_url = "";
  front_channel_logout_binding = "";
  attribute_consuming_service_index = "";
  supported_assertion_query_request_types = "";
  do_sign_assertions = false;
  do_sign_response = false;
  do_single_logout = false;
  do_front_channel_logout = false;
  do_enable_encrypted_assertion = false;
  do_validate_signature_in_requests = false;
  do_validate_signature_in_artifact_resolve = false;
  enable_attribute_profile = false;
  enable_attributes_by_default = false;
  enable_saml2_artifact_binding = false;
  assertion_query_request_profile_enabled = false;
  idp_init_sso_enabled = false;
  idp_init_slo_enabled = false;
  saml_ecp = false;
}
