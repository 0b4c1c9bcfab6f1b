-- ===== src/Controller/Trace/Entry.antt =====
-- The calls that `Reconcile` of the WSO2SP reconciler can make before the object is protected by its
-- finalizer, while it is paused, and while there is no client.
use mathlib.Core.Bool.{false≢true}
use wso2is_operator.Base.{sym, ◌∙◌, Bool, true, false, ◌≡◌, refl}
use wso2is_operator.Api.Sp.{Wso2Sp}
use wso2is_operator.System.Platform.{
  Platform, System, Call, sent, fetched_url, created_secret, updated_secret, updated_sp,
  updated_status, patched_status, updated_instance, recorded,
}
use wso2is_operator.System.Trace.{
  Extends, extending, call-Only, event-Only, read-Only, Only, runs, Only-pure, Only-bind, Only-if,
}
use wso2is_operator.Controller.Spec.{skip_reconcile, app}
use wso2is_operator.Controller.Phase.{sp_finalizer}
use wso2is_operator.Controller.Trace.Object.{Connects, Handles, reconcile_object-Only}
use wso2is_operator.Controller.Reconcile.Entry.{pause, reconcile_object}

-- A call that stays in the cluster and that touches nothing but the object.
abbrev pub is_local : Call → Bool
is_local (sent _) = false
is_local (fetched_url _) = false
is_local (created_secret _) = false
is_local (updated_secret _) = false
is_local (updated_sp _) = true
is_local (updated_status _) = true
is_local (patched_status _) = false
is_local (updated_instance _) = false
is_local (recorded _) = true

abbrev pub is_status_update : Call → Bool
is_status_update (updated_status _) = true
is_status_update _ = false

extending-Connects : (P : Platform) (T : Call → Bool) → Connects P (extending T)
extending-Connects P T = record {
  reads_instance = λ k. read-Only T _;
  reads_secret = λ k. read-Only T _;
}

module _ (P : Platform) (sp : Wso2Sp) (live : sp.meta.deleting ≡ false)
    (unprotected : P.contains_finalizer sp_finalizer sp.meta.finalizers ≡ false) where
  is_local-Handles : Handles P (extending is_local) sp
  is_local-Handles = record {
    connects = extending-Connects P is_local;
    records = λ e. event-Only is_local _ refl;
    pauses = λ _. call-Only is_local _ _ refl;
    blocks = λ e. call-Only is_local _ _ refl;
    deletes = λ d. absurd (false≢true (sym live ∙ d));
    reconciles = λ l f c. absurd (false≢true (sym unprotected ∙ f));
    protects = λ l f. call-Only is_local _ _ refl;
  }

pause-Only : (P : Platform) (sp : Wso2Sp) → Only (extending is_status_update) (pause P sp)
unfolding pause
pause-Only P sp =
    let Q = extending is_status_update in
    Only-if Q _ _ _ (Only-pure Q _)
      (Only-bind Q _ _ (call-Only is_status_update _ _ refl) (λ _. Only-pure Q _))

-- A live object without the finalizer is never acted upon remotely: whatever the APIs answer, there
-- is no request to the server, no fetch of metadata and no write of a secret, only writes of the
-- object itself and events.
pub reconcile_object-unprotected :
    (P : Platform) (sp : Wso2Sp) (s : System P)
    → sp.meta.deleting ≡ false
    → P.contains_finalizer sp_finalizer sp.meta.finalizers ≡ false
    → Extends is_local s (reconcile_object P sp s).1
reconcile_object-unprotected P sp s live unprotected =
    runs (reconcile_object-Only P (extending is_local) sp (is_local-Handles P sp live unprotected))
      s

-- An object whose annotations pause it gets at most writes of its status, even if it is being deleted:
-- its finalizer stays.
pub reconcile_object-paused :
    (P : Platform) (sp : Wso2Sp) (s : System P)
    → skip_reconcile app sp ≡ true
    → Extends is_status_update s (reconcile_object P sp s).1
unfolding reconcile_object
reconcile_object-paused P sp s paused = rw paused (runs (pause-Only P sp) s)

-- A write of the status, or an event.
abbrev pub is_report : Call → Bool
is_report (updated_status _) = true
is_report (recorded _) = true
is_report _ = false
