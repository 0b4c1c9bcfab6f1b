-- ===== src/Controller/Trace/Application.antt =====
-- The calls that `reconcileApplication` can make.
use wso2is_operator.Base.{true, false, ℕ, ◌<>◌, Bool, Option, none, some, refl, ◌==◌, ◌||◌}
use wso2is_operator.Base.Result.{Result, ok, err}
use wso2is_operator.Api.Sp.{Wso2Sp}
use wso2is_operator.Wso2.App.{Application}
use wso2is_operator.Wso2.Client.Transport.{Client}
use wso2is_operator.System.Platform.{
  Platform, System, Call, sent, fetched_url, created_secret, updated_secret, updated_sp,
  updated_status, patched_status, updated_instance, recorded,
}
use wso2is_operator.System.Trace.{
  Extends, Rule, Only, runs, extending, call-Only, read-Only, event-Only, Only-pure, Only-bind,
  Only-then, Only-if, Only-Option, Only-Result,
}
use wso2is_operator.Controller.Spec.{skip_reconcile, oauth, saml}
use wso2is_operator.Controller.Phase.{Turn, stops, phase_failed}
use wso2is_operator.Controller.Changed.{app_has_changed}
use wso2is_operator.Controller.Reconcile.Application.{
  patch_status, create_remote, load_script, finish_sync, send_update, update_remote, sync_existing,
  after_lookup, sync_application, after_saml, saml_part, after_oauth, reconcile_application,
}
use wso2is_operator.Controller.Trace.Client.{
  is_from, create_application-Only, update_application-Only, get_application_by_name-Only,
}
use wso2is_operator.Controller.Trace.Cluster.{Allows, set_phase-Only}
use wso2is_operator.Controller.Trace.Parts.{
  fail_with-Only, populate_inbound_secrets-Only, reconcile_application_oauth2-Only,
  reconcile_saml_application-Only, reconcile_admin_access-Only,
}

module _ (P : Platform) (Q : Rule P) (c : Client) (allowed : Allows P Q c) where
  patch_status-Only : (base sp : Wso2Sp) (requeue : ℕ) → Only Q (patch_status P c base sp requeue)
  unfolding patch_status
  patch_status-Only base sp requeue =
      Only-bind Q _ _ (allowed.patches_status _ _) (λ _. Only-pure Q _)

  create_remote-Only : (sp : Wso2Sp) (d : Application) → Only Q (create_remote P c sp d)
  unfolding create_remote
  create_remote-Only sp d = Only-bind Q _ _ (create_application-Only P Q c allowed.sends d) (λ r.
      Only-Option Q r _ _
        (λ e. fail_with-Only P Q c allowed sp "CreateFailed" "Creating" ("create failed: " <> e))
        (Only-then Q _ _ (allowed.records _) (patch_status-Only sp _ 5)))

  load_script-Only : (sp : Wso2Sp) (d : Application) → Only Q (load_script P c sp d)
  unfolding load_script
  load_script-Only sp d =
      Only-Option Q sp.spec.authentication_script _ _
        (λ name.
          Only-Option Q sp.spec.authentication_steps _ _
            (λ _. Only-bind Q _ _ (allowed.reads_config_map _) (λ _. Only-pure Q _))
            (Only-pure Q (ok d)))
        (Only-pure Q (ok d))

  finish_sync-Only : (base sp : Wso2Sp) (x : Application) → Only Q (finish_sync P c base sp x)
  unfolding finish_sync
  finish_sync-Only base sp x =
      Only-bind Q _ _ (reconcile_admin_access-Only P Q c allowed _)
        (λ t. Only-if Q _ _ _ (Only-pure Q _) (patch_status-Only base t.sp 300))

  send_update-Only : (base sp : Wso2Sp) (x d : Application) → Only Q (send_update P c base sp x d)
  unfolding send_update
  send_update-Only base sp x d =
      Only-bind Q _ _ (update_application-Only P Q c allowed.sends d) (λ r.
        Only-Option Q r _ _
          (λ e. fail_with-Only P Q c allowed sp "UpdateFailed" "Updating" ("update failed: " <> e))
          (Only-then Q _ _ (allowed.records _) (finish_sync-Only base sp x)))

  update_remote-Only :
      (base sp : Wso2Sp) (x d : Application) → Only Q (update_remote P c base sp x d)
  unfolding update_remote
  update_remote-Only base sp x d =
      Only-bind Q _ _ (populate_inbound_secrets-Only P Q c allowed sp d) (λ r.
        Only-Result Q r _ _
          (λ e.
            set_phase-Only P Q sp phase_failed ("failed to read inbound secrets: " <> e) 30
              (allowed.updates_status _))
          (λ d'. send_update-Only base sp x d'))

  sync_existing-Only :
      (base sp : Wso2Sp) (x d : Application) → Only Q (sync_existing P c base sp x d)
  unfolding sync_existing
  sync_existing-Only base sp x d = Only-bind Q _ _ (load_script-Only sp d) (λ r.
      Only-Result Q r _ _ (λ e. set_phase-Only P Q sp phase_failed e 30 (allowed.updates_status _))
        (λ d'.
          let (changed, x', d'') = app_has_changed P.sort_claims P.digest x d' in
          Only-if Q changed _ _ (update_remote-Only base sp x' d'') (finish_sync-Only base sp x')))

  after_lookup-Only :
      (sp : Wso2Sp) (r : Result (Option Application)) → Only Q (after_lookup P c sp r)
  unfolding after_lookup
  after_lookup-Only sp (err e) = fail_with-Only P Q c allowed sp "GetFailed" "Reconciling" e
  after_lookup-Only sp (ok none) = create_remote-Only sp _
  after_lookup-Only sp (ok (some x)) = sync_existing-Only sp _ x _

  sync_application-Only : (sp : Wso2Sp) → Only Q (sync_application P c sp)
  unfolding sync_application
  sync_application-Only sp =
      Only-bind Q _ _ (get_application_by_name-Only P Q c allowed.sends sp.spec.name)
        (after_lookup-Only sp)

  after_saml-Only : (t : Turn) → Only Q (after_saml P c t)
  unfolding after_saml
  after_saml-Only t = Only-if Q (stops t) _ _ (Only-pure Q t) (sync_application-Only t.sp)

  saml_part-Only : (sp : Wso2Sp) → Only Q (saml_part P c sp)
  unfolding saml_part
  saml_part-Only sp =
      Only-Option Q sp.spec.saml _ _
        (λ cfg.
          Only-if Q (cfg.metadata_url == "" || skip_reconcile saml sp) _ _
            (sync_application-Only sp)
            (Only-bind Q _ _ (reconcile_saml_application-Only P Q c allowed sp cfg)
              after_saml-Only))
        (sync_application-Only sp)

  after_oauth-Only : (t : Turn) → Only Q (after_oauth P c t)
  unfolding after_oauth
  after_oauth-Only t = Only-if Q (stops t) _ _ (Only-pure Q t) (saml_part-Only t.sp)

  pub reconcile_application-Only : (sp : Wso2Sp) → Only Q (reconcile_application P c sp)
  unfolding reconcile_application
  reconcile_application-Only sp =
      Only-Option Q sp.spec.oauth2 _ _
        (λ o.
          Only-if Q (skip_reconcile oauth sp) _ _ (saml_part-Only sp) (
            Only-bind Q _ _ (reconcile_application_oauth2-Only P Q c allowed sp o)
              after_oauth-Only))
        (saml_part-Only sp)

-- What a reconciliation of an application may do: send requests with the client's credentials, fetch
-- metadata, write secrets and the status, and record events.
abbrev pub of_application : Client → Call → Bool
of_application c (sent req) = is_from c req
of_application c (fetched_url _) = true
of_application c (created_secret _) = true
of_application c (updated_secret _) = true
of_application c (updated_sp _) = false
of_application c (updated_status _) = true
of_application c (patched_status _) = true
of_application c (updated_instance _) = false
of_application c (recorded _) = true

of_application-Allows : (P : Platform) (c : Client) → Allows P (extending (of_application c)) c
of_application-Allows P c =
    let T = of_application c in
    record {
      sends = λ req h. call-Only T _ _ h;
      fetches = λ url. call-Only T _ _ refl;
      secrets = record {
        reads = λ k. read-Only T _;
        creates = λ sec. call-Only T _ _ refl;
        updates = λ sec. call-Only T _ _ refl;
      };
      reads_config_map = λ k. read-Only T _;
      updates_status = λ o. call-Only T _ _ refl;
      patches_status = λ base o. call-Only T _ _ refl;
      records = λ e. event-Only T e refl;
    }

-- Whatever the server and the Kubernetes API answer, a reconciliation of an application makes these
-- calls at most: requests with the client's credentials, fetches of metadata, writes of secrets,
-- writes of the object's status, and events. It never writes the object itself, so neither spec nor
-- finalizers, and it never touches an instance.
pub reconcile_application-Extends :
    (P : Platform) (c : Client) (sp : Wso2Sp) (s : System P)
    → Extends (of_application c) s (reconcile_application P c sp s).1
reconcile_application-Extends P c sp s =
    runs
      (reconcile_application-Only P (extending (of_application c)) c (of_application-Allows P c) sp)
      s
