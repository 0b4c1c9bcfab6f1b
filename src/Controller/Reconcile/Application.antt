-- ===== src/Controller/Reconcile/Application.antt =====
-- internal/controller/wso2sp_controller.go: `reconcileApplication`.
use wso2is_operator.Base.{
  ℕ, String, ◌<>◌, not, Option, none, some, eqb_ℤ, ◌==◌, ◌||◌, if◌then◌else◌,
}
use wso2is_operator.Base.Result.{Result, ok, err}
use wso2is_operator.Api.Meta.{get_text}
use wso2is_operator.Api.Sp.{Wso2Sp}
use wso2is_operator.Wso2.App.{Application}
use wso2is_operator.Wso2.Client.Transport.{Client}
use wso2is_operator.Wso2.Client.Soap.{
  get_application_by_name, create_application, update_application,
}
use wso2is_operator.System.Kube.{ConfigMap, Lookup, found, not_found, failed}
use wso2is_operator.System.Platform.{Platform, M, patched_status, call, read, pure, ◌>>=◌, ◌>>◌}
use wso2is_operator.Controller.Spec.{application_from_spec, skip_reconcile, oauth, saml}
use wso2is_operator.Controller.Changed.{app_has_changed}
use wso2is_operator.Controller.Phase.{
  Turn, phase_failed, phase_pending, phase_ready, with_phase, set_phase, fail_with, notify, stops,
}
use wso2is_operator.Controller.Secrets.{populate_inbound_secrets}
use wso2is_operator.Controller.Reconcile.Oauth.{reconcile_application_oauth2}
use wso2is_operator.Controller.Reconcile.Saml.{reconcile_saml_application}
use wso2is_operator.Controller.Reconcile.Admin.{reconcile_admin_access}

-- What a step returns after a status patch.
abbrev pub patch_turn : ℕ → Option String × Wso2Sp → Turn
patch_turn requeue (none, sp) = record { sp = sp; requeue_after = requeue; error = none }
patch_turn requeue (some e, sp) = record {
  sp = sp;
  requeue_after = 0;
  error = some ("patch status: " <> e);
}

-- The status takes over the IDs of the application.
unfoldable pub with_ids : Application → Wso2Sp → Wso2Sp
with_ids existing sp =
    if not (eqb_ℤ sp.status.id existing.id) || not (sp.status.resource_id == existing.resource_id)
    then record sp {
      status = record sp.status { id = existing.id; resource_id = existing.resource_id };
    }
    else sp

abbrev script_message : Lookup ConfigMap → Result String
script_message (found cm) = ok (get_text "script" cm.contents)
script_message (not_found e) = err ("failed to get auth script configmap: " <> e)
script_message (failed e) = err ("failed to get auth script configmap: " <> e)

abbrev with_script : Application → Result String → Result Application
with_script desired (err e) = err e
with_script desired (ok script) = ok (record desired { authentication_script = script })

module _ (P : Platform) (c : Client) where
  unfoldable pub patch_status : Wso2Sp → Wso2Sp → ℕ → M P Turn
  patch_status base sp requeue = do
    r ← call (patched_status sp) (P.patch_sp_status base sp)
    pure (patch_turn requeue r)

  unfoldable pub create_remote : Wso2Sp → Application → M P Turn
  unfolding patch_status
  create_remote sp desired = do
    e ← create_application P c desired
    elim e [
      | some e ↦ fail_with P sp "CreateFailed" "Creating" ("create failed: " <> e)
      | none ↦ do
        notify "Created" "Creating"
        patch_status sp (with_phase phase_pending "Application created, waiting for remote sync" sp)
            5
    ]

  -- The desired application with the script of the config map, if the spec names one and has steps.
  unfoldable pub load_script : Wso2Sp → Application → M P (Result Application)
  load_script sp desired = elim sp.spec.authentication_script [
    | none ↦ pure (ok desired)
    | some name ↦ elim sp.spec.authentication_steps [
      | none ↦ pure (ok desired)
      | some _ ↦ do
        r ← read (P.get_config_map (record { namespace = sp.meta.namespace; name = name }))
        pure (with_script desired (script_message r))
    ]
  ]

  -- From the point where the remote application is in sync.
  unfoldable pub finish_sync : Wso2Sp → Wso2Sp → Application → M P Turn
  unfolding patch_status
  finish_sync base sp existing = do
    let ready =
        with_phase phase_ready ("Application in sync (ID: " <> (existing.resource_id <> ")")) sp
    t ← reconcile_admin_access P c ready
    if stops t then pure t else patch_status base t.sp 300

  unfoldable pub send_update : Wso2Sp → Wso2Sp → Application → Application → M P Turn
  unfolding finish_sync
  send_update base sp existing desired = do
    e ← update_application P c desired
    elim e [
      | some e ↦ fail_with P sp "UpdateFailed" "Updating" ("update failed: " <> e)
      | none ↦ do notify "Updated" "Updating"; finish_sync base sp existing
    ]

  unfoldable pub update_remote : Wso2Sp → Wso2Sp → Application → Application → M P Turn
  unfolding send_update
  update_remote base sp existing desired = do
    a ← populate_inbound_secrets P sp desired
    elim a [
      | err e ↦ set_phase P sp phase_failed ("failed to read inbound secrets: " <> e) 30
      | ok desired' ↦ send_update base sp existing desired'
    ]

  -- From the point where the remote application is known to exist.
  unfoldable pub sync_existing : Wso2Sp → Wso2Sp → Application → Application → M P Turn
  unfolding load_script update_remote finish_sync
  sync_existing base sp existing desired = do
    d ← load_script sp desired
    elim d [
      | err e ↦ set_phase P sp phase_failed e 30
      | ok desired' ↦
          let (changed, existing', desired'') =
            app_has_changed P.sort_claims P.digest existing desired' in
          if changed
          then update_remote base sp existing' desired''
          else finish_sync base sp existing'
    ]

  -- From the point where the application is read.
  unfoldable pub after_lookup : Wso2Sp → Result (Option Application) → M P Turn
  unfolding create_remote sync_existing with_ids
  after_lookup sp (err e) = fail_with P sp "GetFailed" "Reconciling" e
  after_lookup sp (ok none) = create_remote sp (application_from_spec sp)
  after_lookup sp (ok (some existing)) =
      sync_existing sp (with_ids existing sp) existing (application_from_spec sp)

  -- From the point where the OAuth and SAML parts are done.
  unfoldable pub sync_application : Wso2Sp → M P Turn
  unfolding after_lookup
  sync_application sp = do r ← get_application_by_name P c sp.spec.name; after_lookup sp r

  unfoldable pub after_saml : Turn → M P Turn
  unfolding sync_application
  after_saml t = if stops t then pure t else sync_application t.sp

  unfoldable pub saml_part : Wso2Sp → M P Turn
  unfolding after_saml
  saml_part sp = elim sp.spec.saml [
    | none ↦ sync_application sp
    | some cfg ↦
        if cfg.metadata_url == "" || skip_reconcile saml sp
        then sync_application sp
        else do t ← reconcile_saml_application P c sp cfg; after_saml t
  ]

  unfoldable pub after_oauth : Turn → M P Turn
  unfolding saml_part
  after_oauth t = if stops t then pure t else saml_part t.sp

  unfoldable pub reconcile_application : Wso2Sp → M P Turn
  unfolding after_oauth
  reconcile_application sp = elim sp.spec.oauth2 [
    | none ↦ saml_part sp
    | some o ↦
        if skip_reconcile oauth sp
        then saml_part sp
        else do t ← reconcile_application_oauth2 P c sp o; after_oauth t
  ]
