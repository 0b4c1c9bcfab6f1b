-- ===== src/System/Stored.antt =====
-- The object that the Kubernetes API server holds, and what the server is documented to do with it.
use wso2is_operator.Base.{String, ◌≡◌, sym, subst, ◌⊎◌, inl, inr}
use wso2is_operator.Api.Sp.{Wso2Sp, Wso2SpStatus}
use wso2is_operator.System.Kube.{ObjectKey, Secret, found}
use wso2is_operator.System.Http.{HttpRequest}
use wso2is_operator.System.Platform.{
  Platform, Call, updated_sp, updated_status, patched_status, read, call, event,
}
use wso2is_operator.System.Trace.{Rule, Only, only}

-- `stored` is the one WSO2SP object in question. A read returns it. `Update` writes everything but the
-- status, which is a subresource, and `Status().Update` the status alone, or they fail and write
-- nothing. A status patch changes the status alone, and a resource ID that it does not change stays.
pub record Stores (P : Platform) : Type 0 where
  pub stored : P.State → Wso2Sp
  pub get_sp_returns :
      (k : ObjectKey) (w : P.State) (o : Wso2Sp) → (P.get_sp k w).0 ≡ found o → o ≡ stored w
  pub get_sp_quiet : (k : ObjectKey) (w : P.State) → stored (P.get_sp k w).1 ≡ stored w
  pub send_quiet : (r : HttpRequest) (w : P.State) → stored (P.send r w).1 ≡ stored w
  pub fetch_quiet : (u : String) (w : P.State) → stored (P.fetch u w).1 ≡ stored w
  pub get_instance_quiet : (k : ObjectKey) (w : P.State) → stored (P.get_instance k w).1 ≡ stored w
  pub get_secret_quiet : (k : ObjectKey) (w : P.State) → stored (P.get_secret k w).1 ≡ stored w
  pub get_config_map_quiet :
      (k : ObjectKey) (w : P.State) → stored (P.get_config_map k w).1 ≡ stored w
  pub create_secret_quiet :
      (sec : Secret) (w : P.State) → stored (P.create_secret sec w).1 ≡ stored w
  pub update_secret_quiet :
      (sec : Secret) (w : P.State) → stored (P.update_secret sec w).1 ≡ stored w
  pub update_writes :
      (o : Wso2Sp) (w : P.State)
      → (stored (P.update_sp o w).1 ≡ stored w)
        ⊎ (stored (P.update_sp o w).1 ≡ record o { status = (stored w).status })
  pub status_writes :
      (o : Wso2Sp) (w : P.State)
      → (stored (P.update_sp_status o w).1 ≡ stored w)
        ⊎ (stored (P.update_sp_status o w).1 ≡ record (stored w) { status = o.status })
  pub patch_writes :
      (base o : Wso2Sp) (w : P.State)
      → (st : Wso2SpStatus) × (stored (P.patch_sp_status base o w).1
          ≡ record (stored w) { status = st })
        × ((base.status.resource_id ≡ o.status.resource_id)
            → st.resource_id ≡ (stored w).status.resource_id)

-- The rule that a property of the stored object is kept.
abbrev pub holding : {P : Platform} → Stores P → (Wso2Sp → Type 0) → Rule P
holding st S = record {
  rel = λ s t. S (st.stored s.world) → S (st.stored t.world);
  stay = λ s h. h;
  compose = λ s t u f g h. g (f h);
}

module _ {P : Platform} (st : Stores P) (S : Wso2Sp → Type 0) where
  pub quiet_read-Only :
      {A : Type 0} (f : P.State → A × P.State)
      → ((w : P.State) → st.stored (f w).1 ≡ st.stored w)
      → Only (holding st S) (read f)
  unfolding read
  quiet_read-Only f quiet = only (λ s h. subst S (sym (quiet s.world)) h)

  pub quiet_call-Only :
      {A : Type 0} (c : Call) (f : P.State → A × P.State)
      → ((w : P.State) → st.stored (f w).1 ≡ st.stored w)
      → Only (holding st S) (call c f)
  unfolding call
  quiet_call-Only c f quiet = only (λ s h. subst S (sym (quiet s.world)) h)

  pub quiet_event-Only : (e : _) → Only (holding st S) (event {P = P} e)
  unfolding event
  quiet_event-Only e = only (λ s h. h)

  pub status_call-Only :
      (o : Wso2Sp)
      → ((x : Wso2Sp) → S x → S (record x { status = o.status }))
      → Only (holding st S) (call (updated_status o) (P.update_sp_status o))
  unfolding call
  status_call-Only o keep = only (λ s h. elim (st.status_writes o s.world) [
    | inl e ↦ subst S (sym e) h
    | inr e ↦ subst S (sym e) (keep (st.stored s.world) h)
  ])

  pub update_call-Only :
      (o : Wso2Sp)
      → ((x : Wso2Sp) → S x → S (record o { status = x.status }))
      → Only (holding st S) (call (updated_sp o) (P.update_sp o))
  unfolding call
  update_call-Only o keep = only (λ s h. elim (st.update_writes o s.world) [
    | inl e ↦ subst S (sym e) h
    | inr e ↦ subst S (sym e) (keep (st.stored s.world) h)
  ])

  pub patch_call-Only :
      (base o : Wso2Sp)
      → ((x : Wso2Sp) (t : Wso2SpStatus)
          → ((base.status.resource_id ≡ o.status.resource_id)
              → t.resource_id ≡ x.status.resource_id)
          → S x
          → S (record x { status = t }))
      → Only (holding st S) (call (patched_status o) (P.patch_sp_status base o))
  unfolding call
  patch_call-Only base o keep = only (λ s h.
      let (t, e, id) = st.patch_writes base o s.world in
      subst S (sym e) (keep (st.stored s.world) t id h))
