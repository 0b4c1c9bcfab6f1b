-- ===== src/RoundTrip/Application.antt =====
-- The application: `buildUpdateApplication` and `mapGetApplication`.
pub mod Kept
use wso2is_operator.Base.{
  String, Bool, true, false, List, [], map, Option, none, some, elems, appended, ℤ, if◌then◌else◌,
}
use wso2is_operator.Base.Exit.{Exit, ◌>>=◌}
use wso2is_operator.Wso2.App.{Application}
use wso2is_operator.Wso2.Soap.Provider.{
  ClaimConfigRequest, InboundAuthenticationConfigRequest,
  LocalAndOutboundAuthenticationConfigRequest, ServiceProviderRequest,
}
use wso2is_operator.Wso2.Soap.ProviderReply.{
  ClaimConfigResponse, InboundAuthenticationConfigResponse,
  LocalAndOutboundAuthenticationConfigResponse, ServiceProviderResponse,
}
use wso2is_operator.Wso2.Map.Application.{map_authentication_steps, oauth2_enabled, saml_enabled}
use wso2is_operator.Controller.Secrets.{given}
use wso2is_operator.RoundTrip.Application.Kept.{
  kept_claim, kept_inbound, kept_step, number_of, default_number,
}

abbrev kept_claims : Option ClaimConfigRequest → Option ClaimConfigResponse
kept_claims none = none
kept_claims (some c) = some (record {
  always_send_mapped_local_subject_id = c.always_send_mapped_local_subject_id;
  local_claim_dialect = if c.local_claim_dialect then "true" else "false";
  claim_mappings = map kept_claim c.claim_mappings;
  user_claim_uri = c.user_claim_uri;
})

abbrev kept_inbounds :
    Option InboundAuthenticationConfigRequest → Option InboundAuthenticationConfigResponse
kept_inbounds none = none
kept_inbounds (some c) = some (record {
  inbound_authentication_request_configs =
      map kept_inbound c.inbound_authentication_request_configs;
})

abbrev kept_flow :
    Option LocalAndOutboundAuthenticationConfigRequest
    → Option LocalAndOutboundAuthenticationConfigResponse
kept_flow none = none
kept_flow (some c) = some (record {
  always_send_back_authenticated_list_of_idps = c.always_send_back_authenticated_list_of_idps;
  authentication_steps = map kept_step c.authentication_steps;
  authentication_script_config = record {
    content = c.authentication_script_config.content;
    enabled = c.authentication_script_config.enabled;
    language = c.authentication_script_config.language;
  };
  authentication_type = c.authentication_type;
  subject_claim_uri = c.subject_claim_uri;
  authentication_script = c.authentication_script;
  enable_authorization = c.enable_authorization;
  skip_consent = c.skip_consent;
  skip_logout_consent = c.skip_logout_consent;
  use_tenant_domain_in_local_subject_identifier = c.use_tenant_domain_in_local_subject_identifier;
  use_userstore_domain_in_local_subject_identifier =
      c.use_userstore_domain_in_local_subject_identifier;
  use_userstore_domain_in_roles = c.use_userstore_domain_in_roles;
})

-- The reply that holds what a request held, under the IDs of the server.
abbrev pub kept : ℤ → String → ServiceProviderRequest → ServiceProviderResponse
kept id resource_id r = record {
  application_id = id;
  application_resource_id = resource_id;
  application_name = r.application_name;
  description = r.description;
  claim_config = kept_claims r.claim_config;
  inbound_authentication_config = kept_inbounds r.inbound_authentication_config;
  local_and_outbound_authentication_config = kept_flow r.local_and_outbound_authentication_config;
}

-- What is read back of an application.
abbrev pub read_back : ℤ → String → Application → Application
read_back id resource_id a =
    let cs = elems a.authentication_steps in
    record a {
      id = id;
      resource_id = resource_id;
      oauth2 = some (oauth2_enabled (given a.oauth2));
      saml = some (saml_enabled (given a.saml));
      authentication_steps = appended cs;
      always_send_back_authenticated_list_of_idps = false;
      step_for_subject = number_of a.step_for_subject cs (default_number cs);
      step_for_attributes = number_of a.step_for_attributes cs (default_number cs);
    }
