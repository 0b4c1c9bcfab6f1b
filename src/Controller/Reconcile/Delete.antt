-- ===== src/Controller/Reconcile/Delete.antt =====
-- internal/controller/wso2sp_controller.go: `handleDelete`.
pub mod Laws
use wso2is_operator.Base.{String, Option, none, some, ◌==◌, if◌then◌else◌}
use wso2is_operator.Api.Sp.{Wso2Sp}
use wso2is_operator.Wso2.Client.Transport.{Client}
use wso2is_operator.Wso2.Client.Soap.{delete_application}
use wso2is_operator.System.Platform.{Platform, M, updated_sp, call, pure, ◌>>=◌, ◌>>◌}
use wso2is_operator.Controller.Phase.{Turn, sp_finalizer, warn, notify}

abbrev pub without_finalizer : Platform → Wso2Sp → Wso2Sp
without_finalizer P sp = record sp {
  meta = record sp.meta { finalizers = P.remove_finalizer sp_finalizer sp.meta.finalizers };
}

-- What a step returns after an update of the object.
abbrev pub update_turn : Option String × Wso2Sp → Turn
update_turn (e, sp) = record { sp = sp; requeue_after = 0; error = e }

-- The event that follows the request.
unfoldable pub report : {P : Platform} → Option String → M P (Unit {0})
report (some e) = warn "DeleteFailed" "Deleting"
report none = notify "Deleted" "Deleting"

module _ (P : Platform) (c : Client) (sp : Wso2Sp) where
  unfoldable pub release : M P Turn
  release = do
    r ← call (updated_sp (without_finalizer P sp)) (P.update_sp (without_finalizer P sp))
    pure (update_turn r)

  unfoldable pub delete_remote : M P (Unit {0})
  unfolding report
  delete_remote = do e ← delete_application P c sp.spec.name; report e

  unfoldable pub handle_delete : M P Turn
  unfolding release delete_remote
  handle_delete = if sp.status.resource_id == "" then release else do delete_remote; release
