-- ===== src/Controller/Liveness/Application.antt =====
-- A reconciliation of an application returns, and asks for another turn or reports an error.
use wso2is_operator.Base.{
  false, ℕ, String, ◌<>◌, Option, none, some, ◌≡◌, refl, ◌==◌, ◌||◌, nat_eq, ◌≤◌, arith,
}
use wso2is_operator.Base.Exit.{done}
use wso2is_operator.Base.Result.{Result, ok, err}
use wso2is_operator.Api.Sp.{Wso2Sp}
use wso2is_operator.Wso2.App.{Application}
use wso2is_operator.Wso2.Client.Transport.{Client}
use wso2is_operator.System.Platform.{Platform, System}
use wso2is_operator.System.Ends.{
  Ends, returned, Anything, Ends-pure, Ends-read, Ends-call, Ends-event, Ends-bind, Ends-then,
  Ends-if, Ends-test, Ends-Option, Ends-Result,
}
use wso2is_operator.Controller.Spec.{skip_reconcile, oauth, saml}
use wso2is_operator.Controller.Phase.{Turn, stops, phase_failed}
use wso2is_operator.Controller.Changed.{app_has_changed}
use wso2is_operator.Controller.Reconcile.Application.{
  patch_turn, patch_status, create_remote, load_script, finish_sync, send_update, update_remote,
  sync_existing, after_lookup, sync_application, after_saml, saml_part, after_oauth,
  reconcile_application,
}
use wso2is_operator.Controller.Liveness.Answers.{Answers}
use wso2is_operator.Controller.Liveness.Client.{create_application-Ends, update_application-Ends}
use wso2is_operator.Controller.Liveness.Lookups.{get_application_by_name-Ends}
use wso2is_operator.Controller.Liveness.Cluster.{
  IsQueued, IsSoon, Saves, set_phase-Ends, fail_with-Ends, populate_inbound_secrets-Ends,
}
use wso2is_operator.Controller.Liveness.Parts.{
  reconcile_application_oauth2-Ends, reconcile_saml_application-Ends, reconcile_admin_access-Ends,
}

pub patch_turn-IsQueued :
    (requeue : ℕ) (e : Option String) (o : Wso2Sp)
    → nat_eq requeue 0 ≡ false
    → requeue ≤ 300
    → IsQueued (patch_turn requeue (e, o))
patch_turn-IsQueued requeue none o h soon = (rw h refl, soon)
patch_turn-IsQueued requeue (some e) o h soon = (refl, omega arith)

module _ (P : Platform) (saves : Saves P) (c : Client) (answers : Answers P c) where
  patch_status-Ends :
      (base sp : Wso2Sp) (requeue : ℕ)
      → nat_eq requeue 0 ≡ false
      → requeue ≤ 300
      → Ends IsQueued (patch_status P c base sp requeue)
  unfolding patch_status
  patch_status-Ends base sp requeue h soon =
      Ends-bind _ _ (Ends-call Anything _ _ (λ _. tt))
        (λ r _. Ends-pure _ (patch_turn-IsQueued requeue r.0 r.1 h soon))

  create_remote-Ends : (sp : Wso2Sp) (d : Application) → Ends IsQueued (create_remote P c sp d)
  unfolding create_remote
  create_remote-Ends sp d = Ends-bind _ _ (create_application-Ends P c d) (λ r _.
      Ends-Option r _ _
        (λ e. fail_with-Ends P saves sp "CreateFailed" "Creating" ("create failed: " <> e))
        (Ends-then _ _ (Ends-event _) (patch_status-Ends sp _ 5 refl (omega arith))))

  load_script-Ends : (sp : Wso2Sp) (d : Application) → Ends Anything (load_script P c sp d)
  unfolding load_script
  load_script-Ends sp d =
      Ends-Option sp.spec.authentication_script _ _
        (λ name.
          Ends-Option sp.spec.authentication_steps _ _
            (λ _. Ends-bind _ _ (Ends-read _) (λ _ _. Ends-pure _ tt)) (Ends-pure (ok d) tt))
        (Ends-pure (ok d) tt)

  finish_sync-Ends :
      (base sp : Wso2Sp) (x : Application) → Ends IsQueued (finish_sync P c base sp x)
  unfolding finish_sync
  finish_sync-Ends base sp x =
      Ends-bind _ _ (reconcile_admin_access-Ends P saves c answers _) (λ t soon.
        Ends-test (stops t) _ _ (λ h. Ends-pure t (h, soon))
          (λ _. patch_status-Ends base t.sp 300 refl (omega arith)))

  send_update-Ends :
      (base sp : Wso2Sp) (x d : Application) → Ends IsQueued (send_update P c base sp x d)
  unfolding send_update
  send_update-Ends base sp x d = Ends-bind _ _ (update_application-Ends P c d) (λ r _.
      Ends-Option r _ _
        (λ e. fail_with-Ends P saves sp "UpdateFailed" "Updating" ("update failed: " <> e))
        (Ends-then _ _ (Ends-event _) (finish_sync-Ends base sp x)))

  update_remote-Ends :
      (base sp : Wso2Sp) (x d : Application) → Ends IsQueued (update_remote P c base sp x d)
  unfolding update_remote
  update_remote-Ends base sp x d = Ends-bind _ _ (populate_inbound_secrets-Ends P sp d) (λ r _.
      Ends-Result r _ _
        (λ e.
          set_phase-Ends P saves sp phase_failed ("failed to read inbound secrets: " <> e) 30 refl
            (omega arith))
        (λ d'. send_update-Ends base sp x d'))

  sync_existing-Ends :
      (base sp : Wso2Sp) (x d : Application) → Ends IsQueued (sync_existing P c base sp x d)
  unfolding sync_existing
  sync_existing-Ends base sp x d = Ends-bind _ _ (load_script-Ends sp d) (λ r _.
      Ends-Result r _ _ (λ e. set_phase-Ends P saves sp phase_failed e 30 refl (omega arith))
        (λ d'.
          let (changed, x', d'') = app_has_changed P.sort_claims P.digest x d' in
          Ends-if changed _ _ (update_remote-Ends base sp x' d'') (finish_sync-Ends base sp x')))

  after_lookup-Ends :
      (sp : Wso2Sp) (r : Result (Option Application)) → Ends IsQueued (after_lookup P c sp r)
  unfolding after_lookup
  after_lookup-Ends sp (err e) = fail_with-Ends P saves sp "GetFailed" "Reconciling" e
  after_lookup-Ends sp (ok none) = create_remote-Ends sp _
  after_lookup-Ends sp (ok (some x)) = sync_existing-Ends sp _ x _

  sync_application-Ends : (sp : Wso2Sp) → Ends IsQueued (sync_application P c sp)
  unfolding sync_application
  sync_application-Ends sp =
      Ends-bind _ _ (get_application_by_name-Ends P c answers sp.spec.name)
        (λ r _. after_lookup-Ends sp r)

  after_saml-Ends : (t : Turn) → IsSoon t → Ends IsQueued (after_saml P c t)
  unfolding after_saml
  after_saml-Ends t soon =
      Ends-test (stops t) _ _ (λ h. Ends-pure t (h, soon)) (λ _. sync_application-Ends t.sp)

  saml_part-Ends : (sp : Wso2Sp) → Ends IsQueued (saml_part P c sp)
  unfolding saml_part
  saml_part-Ends sp =
      Ends-Option sp.spec.saml _ _
        (λ cfg.
          Ends-if (cfg.metadata_url == "" || skip_reconcile saml sp) _ _ (sync_application-Ends sp)
            (Ends-bind _ _ (reconcile_saml_application-Ends P saves c answers sp cfg)
              after_saml-Ends))
        (sync_application-Ends sp)

  after_oauth-Ends : (t : Turn) → IsSoon t → Ends IsQueued (after_oauth P c t)
  unfolding after_oauth
  after_oauth-Ends t soon =
      Ends-test (stops t) _ _ (λ h. Ends-pure t (h, soon)) (λ _. saml_part-Ends t.sp)

  pub reconcile_application-Ends : (sp : Wso2Sp) → Ends IsQueued (reconcile_application P c sp)
  unfolding reconcile_application
  reconcile_application-Ends sp =
      Ends-Option sp.spec.oauth2 _ _
        (λ o. Ends-if (skip_reconcile oauth sp) _ _ (saml_part-Ends sp) (
          Ends-bind _ _ (reconcile_application_oauth2-Ends P saves c answers sp o)
            after_oauth-Ends))
        (saml_part-Ends sp)

-- Suppose that writes of the status go through, that a list of applications is an array, that an
-- application and a SAML configuration can be read where the server reports no error, and that the
-- OAuth service gives a response that can be decoded. Then a reconciliation of an application never
-- panics: it returns, and it reports an error or asks to be run again; it never asks for a wait of more than
-- five minutes.
pub reconcile_application-IsQueued :
    (P : Platform) (c : Client) (sp : Wso2Sp) (s : System P)
    → Saves P
    → Answers P c
    → (t : Turn) × ((reconcile_application P c sp s).0 ≡ done t) × IsQueued t
reconcile_application-IsQueued P c sp s saves answers =
    returned (reconcile_application-Ends P saves c answers sp) s
