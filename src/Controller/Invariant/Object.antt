-- ===== src/Controller/Invariant/Object.antt =====
-- What one reconciliation of a WSO2SP object keeps of the object in the cluster.
use mathlib.Core.Bool.{false≢true}
use wso2is_operator.Base.{true, false, Bool-cases, ◌≡◌, ◌⊎◌, inl, inr, refl, sym, ap, ◌∙◌}
use wso2is_operator.Api.Sp.{Wso2Sp}
use wso2is_operator.System.Platform.{Platform, System}
use wso2is_operator.System.Trace.{runs}
use wso2is_operator.System.Stored.{
  Stores, holding, quiet_event-Only, status_call-Only, update_call-Only,
}
use wso2is_operator.Controller.Phase.{sp_finalizer}
use wso2is_operator.Controller.Reconcile.Entry.{reconcile_object}
use wso2is_operator.Controller.Trace.Object.{Handles, reconcile_object-Only}
use wso2is_operator.Controller.Invariant.Holding.{holding-Connects, holding-Sends, holding-Allows}

-- An object whose status names a remote application has the finalizer or is being deleted, so that
-- it cannot vanish before its deletion is handled.
abbrev pub Protected : Platform → Wso2Sp → Type 0
Protected P o =
    (o.status.resource_id ≡ "")
    ⊎ (P.contains_finalizer sp_finalizer o.meta.finalizers ≡ true)
    ⊎ (o.meta.deleting ≡ true)

abbrev IsDeleting : Wso2Sp → Type 0
IsDeleting x = x.meta.deleting ≡ true

abbrev pub IsUnnamed : Wso2Sp → Type 0
IsUnnamed x = x.status.resource_id ≡ ""

-- The spec is the same, and so are the metadata, the finalizers excepted.
abbrev pub Untouched : Wso2Sp → Wso2Sp → Type 0
Untouched sp x = (x.spec ≡ sp.spec) × (record x.meta { finalizers = sp.meta.finalizers } ≡ sp.meta)

abbrev SameMeta : Wso2Sp → Wso2Sp → Type 0
SameMeta sp x = x.meta ≡ sp.meta

module _ {P : Platform} (st : Stores P) (sp : Wso2Sp) where
  IsDeleting-Handles : sp.meta.deleting ≡ true → Handles P (holding st IsDeleting) sp
  IsDeleting-Handles d =
      let S : Wso2Sp → Type 0 = IsDeleting in
      record {
        connects = holding-Connects st S;
        records = quiet_event-Only st S;
        pauses = λ _. status_call-Only st S _ (λ x h. h);
        blocks = λ e. status_call-Only st S _ (λ x h. h);
        deletes = λ _. (λ c. holding-Sends st S c, update_call-Only st S _ (λ x h. d));
        reconciles = λ l f c. holding-Allows st S (λ x t h. h) c;
        protects = λ l f. update_call-Only st S _ (λ x h. d);
      }

  SameMeta-Handles :
      sp.meta.deleting ≡ false
      → P.contains_finalizer sp_finalizer sp.meta.finalizers ≡ true
      → Handles P (holding st (SameMeta sp)) sp
  SameMeta-Handles live guarded =
      let S : Wso2Sp → Type 0 = SameMeta sp in
      record {
        connects = holding-Connects st S;
        records = quiet_event-Only st S;
        pauses = λ _. status_call-Only st S _ (λ x h. h);
        blocks = λ e. status_call-Only st S _ (λ x h. h);
        deletes = λ d. absurd (false≢true (sym live ∙ d));
        reconciles = λ l f c. holding-Allows st S (λ x t h. h) c;
        protects = λ l f. absurd (false≢true (sym f ∙ guarded));
      }

  IsUnnamed-Handles :
      sp.meta.deleting ≡ false
      → P.contains_finalizer sp_finalizer sp.meta.finalizers ≡ false
      → sp.status.resource_id ≡ ""
      → Handles P (holding st IsUnnamed) sp
  IsUnnamed-Handles live bare unnamed =
      let S : Wso2Sp → Type 0 = IsUnnamed in
      record {
        connects = holding-Connects st S;
        records = quiet_event-Only st S;
        pauses = λ _. status_call-Only st S _ (λ x h. unnamed);
        blocks = λ e. status_call-Only st S _ (λ x h. unnamed);
        deletes = λ d. absurd (false≢true (sym live ∙ d));
        reconciles = λ l f c. absurd (false≢true (sym bare ∙ f));
        protects = λ l f. update_call-Only st S _ (λ x h. h);
      }

  Untouched-Handles : Handles P (holding st (Untouched sp)) sp
  Untouched-Handles =
      let S : Wso2Sp → Type 0 = Untouched sp in
      record {
        connects = holding-Connects st S;
        records = quiet_event-Only st S;
        pauses = λ _. status_call-Only st S _ (λ x h. h);
        blocks = λ e. status_call-Only st S _ (λ x h. h);
        deletes = λ d. (λ c. holding-Sends st S c, update_call-Only st S _ (λ x h. (refl, refl)));
        reconciles = λ l f c. holding-Allows st S (λ x t h. h) c;
        protects = λ l f. update_call-Only st S _ (λ x h. (refl, refl));
      }

  kept :
      (S : Wso2Sp → Type 0)
      → Handles P (holding st S) sp
      → (s : System P) → S (st.stored s.world)
      → S (st.stored (reconcile_object P sp s).1.world)
  kept S handles s = runs (reconcile_object-Only P (holding st S) sp handles) s

  pub reconcile_object-Protected :
      Protected P sp
      → (s : System P) → st.stored s.world ≡ sp
      → Protected P (st.stored (reconcile_object P sp s).1.world)
  reconcile_object-Protected h s same = elim (Bool-cases sp.meta.deleting) [
    | inl d ↦
        inr (inr (kept IsDeleting (IsDeleting-Handles d) s (ap (λ x. x.meta.deleting) same ∙ d)))
    | inr live ↦ elim (Bool-cases (P.contains_finalizer sp_finalizer sp.meta.finalizers)) [
      | inl f ↦ inr (
          inl (
            ap (λ m. P.contains_finalizer sp_finalizer m.finalizers)
              (kept (SameMeta sp) (SameMeta-Handles live f) s (ap (λ x. x.meta) same))
            ∙ f))
      | inr f ↦
          let unnamed = unnamed_of h live f in
          inl (
            kept IsUnnamed (IsUnnamed-Handles live f unnamed) s
              (ap (λ x. x.status.resource_id) same ∙ unnamed))
    ]
  ]
    where
      unnamed_of :
          Protected P sp
          → sp.meta.deleting ≡ false
          → P.contains_finalizer sp_finalizer sp.meta.finalizers ≡ false
          → sp.status.resource_id ≡ ""
      unnamed_of (inl e) live f = e
      unnamed_of (inr (inl g)) live f = absurd (false≢true (sym f ∙ g))
      unnamed_of (inr (inr d)) live f = absurd (false≢true (sym live ∙ d))

  pub reconcile_object-Untouched :
      (s : System P)
      → st.stored s.world ≡ sp
      → Untouched sp (st.stored (reconcile_object P sp s).1.world)
  reconcile_object-Untouched s same =
      kept (Untouched sp) Untouched-Handles s
        (ap (λ x. x.spec) same, ap (λ x. record x.meta { finalizers = sp.meta.finalizers }) same)
