-- ===== src/Tests/InSync.antt =====
-- A server that has what the spec wants, and a reconciliation over it.
use wso2is_operator.Base.{true, false, [], ◌∷◌, some, pos}
use wso2is_operator.Base.Result.{ok}
use wso2is_operator.Api.Sp.{Wso2Sp}
use wso2is_operator.Wso2.Json.{field, end, arr, cons, nil, str}
use wso2is_operator.Wso2.Soap.ProviderReply.{ServiceProviderResponse}
use wso2is_operator.System.Platform.{Platform}
use wso2is_operator.Tests.Fixtures.{portal}
use wso2is_operator.Tests.Cluster.{cluster}
use wso2is_operator.Tests.Configurations.{wanted_oauth2, kept}

abbrev in_use : Wso2Sp
in_use = record portal {
  spec = record portal.spec { oauth2 = some wanted_oauth2 };
  status = record portal.status { admin_can_view = true; resource_id = "a1b2"; id = pos 7 };
}

-- The application as the server has it.
abbrev portal_reply : ServiceProviderResponse
portal_reply = record {
  application_id = pos 7;
  application_resource_id = "a1b2";
  application_name = "portal";
  description = "portal -- ";
  claim_config = some (record {
    always_send_mapped_local_subject_id = "true";
    local_claim_dialect = "true";
    claim_mappings = [];
    user_claim_uri = "";
  });
  inbound_authentication_config = some (record {
    inbound_authentication_request_configs =
        record { inbound_auth_key = "key"; inbound_auth_type = "oauth2"; properties = [] } ∷ [];
  });
  local_and_outbound_authentication_config = some (record {
    always_send_back_authenticated_list_of_idps = false;
    authentication_steps = [];
    authentication_script_config = record { content = ""; enabled = false; language = "" };
    authentication_type = "flow";
    subject_claim_uri = "";
    authentication_script = "";
    enable_authorization = false;
    skip_consent = false;
    skip_logout_consent = false;
    use_tenant_domain_in_local_subject_identifier = false;
    use_userstore_domain_in_local_subject_identifier = false;
    use_userstore_domain_in_roles = false;
  });
}

abbrev synced_cluster : Platform
synced_cluster = record cluster {
  decode_object = λ _. ok (field "applications" (arr (cons (str "portal") nil)) end);
  decode_application = λ _. ok (record {
    body = record { get_application_response = record { service_provider = portal_reply } };
  });
  decode_oauth = λ _. ok (record {
    body = record {
      get_oauth_application_data_by_app_name_response = record { oauth_application = kept };
    };
  });
}
