-- ===== src/Controller/Trace/Object.antt =====
-- What a reconciliation of a WSO2SP object needs of a rule, branch by branch.
use wso2is_operator.Base.{String, Option, none, some, true, false, Bool-cases, ◌≡◌, inl, inr}
use wso2is_operator.Base.Result.{Result, ok, err}
use wso2is_operator.Api.Sp.{Wso2Sp}
use wso2is_operator.Api.Instance.{Wso2IsInstance}
use wso2is_operator.Wso2.Client.Transport.{Client}
use wso2is_operator.System.Kube.{ObjectKey, Event, Lookup, found, not_found, failed}
use wso2is_operator.System.Platform.{Platform, updated_sp, updated_status, call, read, event}
use wso2is_operator.System.Trace.{
  Rule, Only, Only-pure, Only-panic, Only-bind, Only-then, Only-if, Only-first, Only-else,
  Only-Option,
}
use wso2is_operator.Controller.Spec.{skip_reconcile, app}
use wso2is_operator.Controller.Phase.{phase_pending, sp_finalizer, with_phase}
use wso2is_operator.Controller.Reconcile.Delete.{without_finalizer, report, handle_delete}
use wso2is_operator.Controller.Reconcile.Entry.{
  client_for, after_instance, build_client, paused_turn, pause, with_finalizer, reconcile_with,
  after_client, reconcile_object,
}
use wso2is_operator.Controller.Trace.Client.{Sends, delete_application-Only}
use wso2is_operator.Controller.Trace.Cluster.{Allows, set_phase-Only}
use wso2is_operator.Controller.Trace.Application.{reconcile_application-Only}

-- The rule allows the reads of `buildClient`.
pub record Connects (P : Platform) (Q : Rule P) : Type 0 where
  pub reads_instance : (k : ObjectKey) → Only Q (read (P.get_instance k))
  pub reads_secret : (k : ObjectKey) → Only Q (read (P.get_secret k))

module _ (P : Platform) (Q : Rule P) (connects : Connects P Q) where
  client_for-Only : (name : String) (i : Wso2IsInstance) → Only Q (client_for P name i)
  unfolding client_for
  client_for-Only name i =
      Only-if Q _ _ _ (Only-bind Q _ _ (connects.reads_secret _) (λ _. Only-pure Q _))
        (Only-pure Q _)

  after_instance-Only :
      (name : String) (r : Lookup Wso2IsInstance) → Only Q (after_instance P name r)
  unfolding after_instance
  after_instance-Only name (not_found e) = Only-pure Q _
  after_instance-Only name (failed e) = Only-pure Q _
  after_instance-Only name (found i) = client_for-Only name i

  pub build_client-Only : (sp : Wso2Sp) → Only Q (build_client P sp)
  unfolding build_client
  build_client-Only sp =
      Only-Option Q sp.spec.instance_ref _ _
        (λ name. Only-bind Q _ _ (connects.reads_instance _) (after_instance-Only name))
        (Only-panic Q _ _)

-- The rule allows what `Reconcile` does with the object, on each branch that the object can take.
pub record Handles (P : Platform) (Q : Rule P) (sp : Wso2Sp) : Type 0 where
  pub connects : Connects P Q
  pub records : (e : Event) → Only Q (event e)
  pub pauses :
      skip_reconcile app sp ≡ true
      → Only Q (call (updated_status (paused_turn P sp)) (P.update_sp_status (paused_turn P sp)))
  pub blocks :
      (e : String)
      → (let o = with_phase phase_pending e sp in
          Only Q (call (updated_status o) (P.update_sp_status o)))
  pub deletes :
      sp.meta.deleting ≡ true
      → ((c : Client) → Sends P Q c)
        × Only Q (call (updated_sp (without_finalizer P sp)) (P.update_sp (without_finalizer P sp)))
  pub reconciles :
      sp.meta.deleting ≡ false
      → P.contains_finalizer sp_finalizer sp.meta.finalizers ≡ true
      → (c : Client) → Allows P Q c
  pub protects :
      sp.meta.deleting ≡ false
      → P.contains_finalizer sp_finalizer sp.meta.finalizers ≡ false
      → Only Q (call (updated_sp (with_finalizer P sp)) (P.update_sp (with_finalizer P sp)))

module _ (P : Platform) (Q : Rule P) (sp : Wso2Sp) (handles : Handles P Q sp) where
  pause-Only : skip_reconcile app sp ≡ true → Only Q (pause P sp)
  unfolding pause
  pause-Only h =
      Only-if Q _ _ _ (Only-pure Q _) (Only-bind Q _ _ (handles.pauses h) (λ _. Only-pure Q _))

  report-Only : (e : Option String) → Only Q (report {P = P} e)
  unfolding report
  report-Only (some e) = handles.records _
  report-Only none = handles.records _

  handle_delete-Only : sp.meta.deleting ≡ true → (c : Client) → Only Q (handle_delete P c sp)
  unfolding handle_delete
  handle_delete-Only h c =
      let (sends, updates) = handles.deletes h in
      let released = Only-bind Q _ _ updates (λ _. Only-pure Q _) in
      Only-if Q _ _ _ released (
        Only-then Q _ _
          (Only-bind Q _ _ (delete_application-Only P Q c (sends c) sp.spec.name) report-Only)
          released)

  reconcile_with-Only : (c : Client) → Only Q (reconcile_with P c sp)
  unfolding reconcile_with
  reconcile_with-Only c = elim (Bool-cases sp.meta.deleting) [
    | inl d ↦ Only-first Q sp.meta.deleting _ _ d (handle_delete-Only d c)
    | inr d ↦
        Only-else Q sp.meta.deleting _ _ d
          (elim (Bool-cases (P.contains_finalizer sp_finalizer sp.meta.finalizers)) [
            | inl f ↦
                Only-first Q _ _ _ f
                  (reconcile_application-Only P Q c (handles.reconciles d f c) sp)
            | inr f ↦
                Only-else Q _ _ _ f (Only-bind Q _ _ (handles.protects d f) (λ _. Only-pure Q _))
          ])
  ]

  after_client-Only : (r : Result Client) → Only Q (after_client P sp r)
  unfolding after_client
  after_client-Only (err e) =
      Only-then Q _ _ (handles.records _)
        (set_phase-Only P Q sp phase_pending e 15 (handles.blocks e))
  after_client-Only (ok c) = reconcile_with-Only c

  pub reconcile_object-Only : Only Q (reconcile_object P sp)
  unfolding reconcile_object
  reconcile_object-Only = elim (Bool-cases (skip_reconcile app sp)) [
    | inl h ↦ Only-first Q _ _ _ h (pause-Only h)
    | inr h ↦
        Only-else Q _ _ _ h
          (Only-bind Q _ _ (build_client-Only P Q handles.connects sp) after_client-Only)
  ]
