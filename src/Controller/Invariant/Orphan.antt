-- ===== src/Controller/Invariant/Orphan.antt =====
-- What becomes of an application that the reconciler has created when the object is deleted before
-- the next reconciliation.
use wso2is_operator.Base.{true, ◌∷◌, ◌≡◌, ◌∙◌, refl}
use wso2is_operator.Api.Sp.{Wso2Sp}
use wso2is_operator.Wso2.App.{Application}
use wso2is_operator.Wso2.Client.Transport.{Client}
use wso2is_operator.System.Platform.{Platform, System, updated_sp, call, pure, ◌>>=◌}
use wso2is_operator.System.Trace.{Only, Only-pure, Only-bind, Only-then, Only-Option, runs}
use wso2is_operator.System.Stored.{
  Stores, holding, quiet_event-Only, status_call-Only, patch_call-Only,
}
use wso2is_operator.Controller.Phase.{phase_failed, phase_pending, with_phase, fail_with}
use wso2is_operator.Controller.Reconcile.Delete.{without_finalizer, release, handle_delete}
use wso2is_operator.Controller.Reconcile.Application.{create_remote, patch_status}
use wso2is_operator.Controller.Trace.Client.{create_application-Only}
use wso2is_operator.Controller.Trace.Cluster.{set_phase-Only}
use wso2is_operator.Controller.Invariant.Holding.{holding-Sends}
use wso2is_operator.Controller.Invariant.Object.{IsUnnamed}

abbrev pub deleted : Wso2Sp → Wso2Sp
deleted o = record o { meta = record o.meta { deleting = true } }

handle_delete-unnamed :
    (P : Platform) (c : Client) (o : Wso2Sp) (t : System P)
    → IsUnnamed o
    → (handle_delete P c o t).1.calls ≡ updated_sp (without_finalizer P o) ∷ t.calls
unfolding handle_delete release ◌>>=◌ call pure
handle_delete-unnamed P c o t unnamed = rw (unnamed) refl

module _ {P : Platform} (st : Stores P) (c : Client) (sp : Wso2Sp) (unnamed : IsUnnamed sp) where
  create_remote-Only :
      (desired : Application) → Only (holding st IsUnnamed) (create_remote P c sp desired)
  unfolding create_remote patch_status fail_with
  create_remote-Only desired =
      let Q = holding st IsUnnamed in
      Only-bind Q _ _ (create_application-Only P Q c (holding-Sends st IsUnnamed c) desired) (λ e.
        Only-Option Q e _ _
          (λ e. Only-then Q _ _ (quiet_event-Only st IsUnnamed _) (
            set_phase-Only P Q sp phase_failed _ 30
              (status_call-Only st IsUnnamed _ (λ x h. unnamed))))
          (Only-then Q _ _ (quiet_event-Only st IsUnnamed _) (
            Only-bind Q _ _
              (patch_call-Only st IsUnnamed sp
                (with_phase phase_pending "Application created, waiting for remote sync" sp)
                (λ x t id h. id refl ∙ h))
              (λ _. Only-pure Q _))))

-- After the step that creates the application, whatever the server answers, the stored status has
-- still no resource ID, so that a deletion of the object at that point only removes the finalizer: the
-- server is not asked to delete the application that it may have created.
pub create_remote-orphaned :
    {P : Platform} (st : Stores P) (c : Client) (sp : Wso2Sp) (desired : Application)
    (s t : System P)
    → IsUnnamed sp
    → IsUnnamed (st.stored s.world)
    → (let o = deleted (st.stored (create_remote P c sp desired s).1.world) in
        (handle_delete P c o t).1.calls ≡ updated_sp (without_finalizer P o) ∷ t.calls)
create_remote-orphaned {P = P} st c sp desired s t unnamed h =
    handle_delete-unnamed P c _ t (runs (create_remote-Only st c sp unnamed desired) s h)
