-- ===== src/Controller/Invariant/Reach.antt =====
-- What holds of the object in the cluster after any sequence of reconciliations and of edits by users.
use wso2is_operator.Base.{true, ◌≡◌, refl, sym, subst, ◌∙◌}
use wso2is_operator.Base.Exit.{Exit, done, panicked}
use wso2is_operator.Api.Sp.{Wso2Sp}
use wso2is_operator.System.Kube.{ObjectKey, Lookup, found, not_found, failed}
use wso2is_operator.System.Platform.{Platform, System, continue, ◌>>=◌, read, pure}
use wso2is_operator.System.Stored.{Stores}
use wso2is_operator.Controller.Phase.{Turn}
use wso2is_operator.Controller.Reconcile.Entry.{outcome_of, reconcile_object, after_sp, reconcile}
use wso2is_operator.Controller.Invariant.Object.{
  Protected, Untouched, reconcile_object-Protected, reconcile_object-Untouched,
}

settled :
    {P : Platform} (e : Exit Turn) (s : System P) → (continue e (λ t. pure (outcome_of t)) s).1 ≡ s
unfolding pure
settled (done t) s = refl
settled (panicked p) s = refl

-- A relation from the object that is read to the object that a reconciliation leaves holds of every
-- reconciliation that finds the object, and holds of others if it is reflexive.
module _ {P : Platform} (st : Stores P) (R : Wso2Sp → Wso2Sp → Type 0) (same : (x : Wso2Sp) → R x x)
    (turns : (sp : Wso2Sp) (s : System P)
      → st.stored s.world ≡ sp
      → R sp (st.stored (reconcile_object P sp s).1.world)) where
  after_read :
      (r : Lookup Wso2Sp) (s : System P)
      → ((o : Wso2Sp) → r ≡ found o → o ≡ st.stored s.world)
      → R (st.stored s.world) (st.stored (after_sp P r s).1.world)
  unfolding after_sp ◌>>=◌ pure
  after_read (not_found e) s reads = same _
  after_read (failed e) s reads = same _
  after_read (found sp) s reads =
      let current = reads sp refl in
      let r = reconcile_object P sp s in
      subst (λ t. R (st.stored s.world) (st.stored t.world)) (sym (settled r.0 r.1))
        (subst (λ o. R o (st.stored r.1.world)) current (turns sp s (sym current)))

  reconciled_lem :
      (key : ObjectKey) (s : System P)
      → R (st.stored s.world) (st.stored (reconcile P key s).1.world)
  unfolding reconcile ◌>>=◌ read
  reconciled_lem key s =
      let r = P.get_sp key s.world in
      let quiet = st.get_sp_quiet key s.world in
      subst (λ o. R o (st.stored (after_sp P r.0 (record s { world = r.1 })).1.world)) quiet
        (after_read r.0 (record s { world = r.1 })
          (λ o e. st.get_sp_returns key s.world o e ∙ sym quiet))

-- A reconciliation, whatever it does and whether or not it panics, leaves the spec of the object as it
-- is, and its metadata, the finalizers excepted.
pub reconcile-Untouched :
    {P : Platform} (st : Stores P) (key : ObjectKey) (s : System P)
    → Untouched (st.stored s.world) (st.stored (reconcile P key s).1.world)
reconcile-Untouched st key s =
    reconciled_lem st Untouched (λ x. (refl, refl))
      (λ sp s same. reconcile_object-Untouched st sp s same) key s

pub reconcile-Protected :
    {P : Platform} (st : Stores P) (key : ObjectKey) (s : System P)
    → Protected P (st.stored s.world)
    → Protected P (st.stored (reconcile P key s).1.world)
reconcile-Protected {P = P} st key s =
    reconciled_lem st (λ x y. Protected P x → Protected P y) (λ x h. h)
      (λ sp s same h. reconcile_object-Protected st sp h s same) key s

-- What users do to the object: they may change the spec and the annotations and ask for its deletion,
-- which they cannot take back. The status and the finalizers are the operator's.
pub record Edited (x y : Wso2Sp) : Type 0 where
  pub same_status : y.status ≡ x.status
  pub same_finalizers : y.meta.finalizers ≡ x.meta.finalizers
  pub stays_deleting : x.meta.deleting ≡ true → y.meta.deleting ≡ true

-- The states that a sequence of reconciliations and edits reaches from a state.
pub data Reach {P : Platform} (st : Stores P) (start : P.State) : P.State → Type 0 where
  here : Reach st start start
  reconciled :
      (key : ObjectKey) (s : System P)
      → Reach st start s.world
      → Reach st start (reconcile P key s).1.world
  edited :
      (w w' : P.State) → Reach st start w → Edited (st.stored w) (st.stored w') → Reach st start w'
