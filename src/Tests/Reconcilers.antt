-- ===== src/Tests/Reconcilers.antt =====
-- The theorems on the reconcilers and the client, at concrete inputs.
use wso2is_operator.Base.{true, false, [], ◌∷◌, none, some, ◌==◌, ◌≡◌, refl, ◌⊎◌}
use wso2is_operator.Base.Exit.{done, panicked, Returns, nil_dereference}
use wso2is_operator.Api.Sp.{Wso2Sp}
use wso2is_operator.System.Kube.{not_found, Event}
use wso2is_operator.System.Trace.{Extends}
use wso2is_operator.Wso2.App.{SamlConfig, zero_saml_config}
use wso2is_operator.Wso2.Client.Scim.{ping}
use wso2is_operator.Wso2.Client.Scim.Laws.{ping_result, ping_lem}
use wso2is_operator.Wso2.Client.Soap.{get_application_oauth2_config, update_saml_application}
use wso2is_operator.Wso2.Client.Soap.Laws.{
  delete_by_issuer, create_request, get_application_oauth2_config-panic,
  update_saml_application-calls,
}
use wso2is_operator.Controller.Spec.{skip_reconcile}
use wso2is_operator.Api.Meta.{get_text}
use wso2is_operator.Controller.Reconcile.Delete.{handle_delete, without_finalizer}
use wso2is_operator.Controller.Reconcile.Delete.Laws.{delete_request, handle_delete-calls}
use wso2is_operator.Controller.Reconcile.Application.{reconcile_application}
use wso2is_operator.Controller.Reconcile.Entry.{reconcile_object}
use wso2is_operator.Controller.Instance.{reconcile_instance}
use wso2is_operator.Controller.Trace.Application.{of_application}
use wso2is_operator.Controller.Trace.Application.{reconcile_application-Extends}
use wso2is_operator.Controller.Trace.Entry.{
  is_local, is_status_update, reconcile_object-unprotected, reconcile_object-paused,
}
use wso2is_operator.System.Platform.{System, sent, updated_sp, recorded}
use wso2is_operator.Controller.Spec.{application_from_spec}
use wso2is_operator.Wso2.App.{Application, OAuth2Config, zero_oauth2_config}
use wso2is_operator.Controller.Trace.Instance.{is_observation, reconcile_instance-Extends}
use wso2is_operator.Tests.Fixtures.{
  good_reply, failing_reply, no_reply, platform, portal, portal_meta, main_client, start,
}

abbrev synced : Wso2Sp
synced = record portal {
  meta = record portal_meta { finalizers = "wso2.it.auth.gr/sp-finalizer" ∷ []; deleting = true };
  status = record portal.status { resource_id = "a1b2" };
}

abbrev paused : Wso2Sp
paused = record portal {
  meta = record portal_meta { annotations = some (("wso2.it.auth.gr/reconcile", "false") ∷ []) };
}

reconcile_object-unprotected_example :
    Extends is_local
      (start no_reply none)
      (reconcile_object platform portal (start no_reply none)).1
reconcile_object-unprotected_example =
    reconcile_object-unprotected platform portal (start no_reply none) refl refl

reconcile_object-paused_example :
    Extends is_status_update
      (start no_reply none)
      (reconcile_object platform paused (start no_reply none)).1
unfolding skip_reconcile get_text
reconcile_object-paused_example = reconcile_object-paused platform paused (start no_reply none) refl

reconcile_application-Extends_example :
    Extends
      (of_application main_client)
      (start no_reply none)
      (reconcile_application platform main_client portal (start no_reply none)).1
reconcile_application-Extends_example =
    reconcile_application-Extends platform main_client portal (start no_reply none)

reconcile_instance-Extends_example :
    Extends is_observation
      (start no_reply none)
      (reconcile_instance platform
        (record { namespace = "apps"; name = "main" })
        (start no_reply none)).1
reconcile_instance-Extends_example =
    reconcile_instance-Extends platform (record { namespace = "apps"; name = "main" })
      (start no_reply none)

handle_delete-calls_example :
    Returns (handle_delete platform main_client synced (start failing_reply none)).0
    × (((synced.status.resource_id == "") ≡ true)
          × ((handle_delete platform main_client synced (start failing_reply none)).1.calls
              ≡ updated_sp (without_finalizer platform synced) ∷ [])
        ⊎ ((synced.status.resource_id == "") ≡ false)
          × ((e : Event) × ((handle_delete platform main_client synced
                  (start failing_reply none)).1.calls
                ≡ updated_sp (without_finalizer platform synced)
                  ∷ recorded e
                  ∷ sent (delete_request main_client synced)
                  ∷ [])))
handle_delete-calls_example =
    handle_delete-calls platform main_client synced (start failing_reply none)

ping_lem_example :
    (ping platform main_client (start good_reply none)).0 ≡ done (ping_result good_reply)
ping_lem_example = ping_lem platform main_client (start good_reply none)

get_application_oauth2_config-panic_example :
    (get_application_oauth2_config platform main_client "portal" (start no_reply none)).0
    ≡ panicked nil_dereference
get_application_oauth2_config-panic_example =
    get_application_oauth2_config-panic platform main_client "portal" (start no_reply none)
      "connection refused" refl

abbrev portal_saml : SamlConfig
portal_saml = record zero_saml_config { issuer = "https://portal.example.org" }

update_saml_application-calls_example :
    ((update_saml_application platform main_client portal_saml (start good_reply none)).1.calls
      ≡ sent (delete_by_issuer main_client portal_saml) ∷ [])
    ⊎ ((update_saml_application platform main_client portal_saml (start good_reply none)).1.calls
        ≡ sent (create_request main_client portal_saml)
          ∷ sent (delete_by_issuer main_client portal_saml)
          ∷ [])
update_saml_application-calls_example =
    update_saml_application-calls platform main_client portal_saml (start good_reply none)

abbrev remote_oauth2 : OAuth2Config
remote_oauth2 = record zero_oauth2_config {
  oauth_consumer_key = "key";
  oauth_consumer_secret = "s";
}

abbrev seen : Wso2Sp
seen = record portal { status = record portal.status { admin_can_view = true } }

abbrev portal_application : Application
unfolding application_from_spec
portal_application = application_from_spec seen

-- The same, with an instance that is not there.
abbrev without_instance : System platform
without_instance = record {
  world = record (start no_reply none).world { instance = not_found "no instance" };
  calls = [];
}
