-- ===== src/Tests/Cluster.antt =====
-- A cluster that holds one object, and what reconciliations make of it.
use wso2is_operator.Base.{
  Option, eq_refl, false, sym, ap, String, Bool, true, [], ◌∷◌, none, pos, ◌==◌, ◌≡◌, inl, inr,
  refl,
}
use wso2is_operator.Base.Result.{ok}
use wso2is_operator.Api.Sp.{Wso2Sp}
use wso2is_operator.System.Kube.{ObjectKey, Lookup, found, not_found, failed}
use wso2is_operator.System.Http.{unreachable}
use wso2is_operator.System.Platform.{Platform, System, updated_sp}
use wso2is_operator.System.Stored.{Stores}
use wso2is_operator.Wso2.Json.{field, end, arr, nil}
use wso2is_operator.Base.Exit.{done}
use wso2is_operator.Wso2.Json.{get}
use wso2is_operator.Wso2.Client.Transport.{Client, finish}
use wso2is_operator.Wso2.Client.Soap.{zero_oauth_reply}
use wso2is_operator.Controller.Spec.{application_from_spec}
use wso2is_operator.Controller.Phase.{Turn}
use wso2is_operator.Controller.Reconcile.Application.{create_remote, reconcile_application}
use wso2is_operator.Controller.Reconcile.Delete.{without_finalizer, handle_delete}
use wso2is_operator.Controller.Invariant.Orphan.{deleted, create_remote-orphaned}
use wso2is_operator.Controller.Instance.{reconcile_instance}
use wso2is_operator.Controller.Liveness.Answers.{Answers}
use wso2is_operator.Controller.Liveness.Cluster.{IsQueued}
use wso2is_operator.Controller.Liveness.Instance.{IsPolling, reconcile_instance-IsPolling}
use wso2is_operator.Controller.Liveness.Application.{reconcile_application-IsQueued}
use wso2is_operator.Controller.Reconcile.Entry.{Outcome, reconcile}
use wso2is_operator.Controller.Invariant.Object.{Untouched}
use wso2is_operator.Controller.Invariant.Reach.{Reach, reconcile-Untouched}
use wso2is_operator.Tests.Fixtures.{
  platform, portal, portal_meta, main_instance, main_client, main_secret,
}

abbrev merged_id : Bool → String → String → String
merged_id true held new = held
merged_id false held new = new

-- A merge patch of the status, which leaves a resource ID that it does not change.
abbrev merged : Wso2Sp → Wso2Sp → Wso2Sp → Wso2Sp
merged base o held =
    let id =
      merged_id (base.status.resource_id == o.status.resource_id) held.status.resource_id
        o.status.resource_id in
    record held { status = record o.status { resource_id = id } }

-- The server takes every request, and knows no application and no SAML configuration.
abbrev pub cluster : Platform
cluster = record platform {
  State = Wso2Sp;
  send = λ _ w. (ok (record { body = "{}"; status_code = 200; location = "" }), w);
  fetch = λ _ w. (unreachable "no route", w);
  get_sp = λ _ w. (found w, w);
  get_instance = λ _ w. (found main_instance, w);
  get_secret = λ _ w. (found main_secret, w);
  get_config_map = λ _ w. (not_found "no config map", w);
  create_secret = λ _ w. (none, w);
  update_secret = λ _ w. (none, w);
  update_sp = λ o w. ((none, o), record o { status = w.status });
  update_sp_status = λ o w. ((none, o), record w { status = o.status });
  patch_sp_status = λ base o w. ((none, o), merged base o w);
  update_instance_status = λ o w. ((none, o), w);
  now = λ w. (pos 1000, w);
  decode_object = λ _. ok (field "applications" (arr nil) end);
  decode_oauth = λ _. ok zero_oauth_reply;
}

abbrev found_or : Wso2Sp → Lookup Wso2Sp → Wso2Sp
found_or d (found o) = o
found_or d (not_found _) = d
found_or d (failed _) = d

found_injective : (w o : Wso2Sp) → found w ≡ found o → o ≡ w
found_injective w o e = sym (ap (found_or w) e)

kept_id :
    (base o w : Wso2Sp)
    → base.status.resource_id ≡ o.status.resource_id
    → (merged base o w).status.resource_id ≡ w.status.resource_id
kept_id base o w e = rw (e, eq_refl o.status.resource_id) refl

abbrev cluster-Stores : Stores cluster
cluster-Stores = record {
  stored = λ w. w;
  get_sp_returns = λ k w o e. found_injective w o e;
  get_sp_quiet = λ k w. refl;
  send_quiet = λ r w. refl;
  fetch_quiet = λ u w. refl;
  get_instance_quiet = λ k w. refl;
  get_secret_quiet = λ k w. refl;
  get_config_map_quiet = λ k w. refl;
  create_secret_quiet = λ sec w. refl;
  update_secret_quiet = λ sec w. refl;
  update_writes = λ o w. inr refl;
  status_writes = λ o w. inr refl;
  patch_writes = λ base o w. ((merged base o w).status, refl, λ e. kept_id base o w e);
}

abbrev portal_key : ObjectKey
portal_key = record { namespace = "apps"; name = "portal" }

abbrev pub at : Wso2Sp → System cluster
at w = record { world = w; calls = [] }

-- The object after a reconciliation.
abbrev turned : Wso2Sp → Wso2Sp
turned w = (reconcile cluster portal_key (at w)).1.world

abbrev named : Wso2Sp
named = record portal {
  meta = record portal_meta { finalizers = "wso2.it.auth.gr/sp-finalizer" ∷ [] };
}

reconcile-Untouched_example : Untouched named (reconcile cluster portal_key (at named)).1.world
reconcile-Untouched_example = reconcile-Untouched cluster-Stores portal_key (at named)

abbrev instance_of : Lookup Wso2Sp → Option String
instance_of (found o) = o.spec.instance_ref
instance_of _ = none

cluster-Answers : (c : Client) → Answers cluster c
unfolding finish get
cluster-Answers c = record {
  lists = λ name w. inr (nil, refl);
  describes = λ name w. inl (_, refl);
  knows = λ issuer w. inl (_, refl);
  responds = λ name w. (_, refl);
}

reconcile_application-IsQueued_example :
    (t : Turn) × ((reconcile_application cluster main_client named (at named)).0 ≡ done t)
    × IsQueued t
reconcile_application-IsQueued_example =
    reconcile_application-IsQueued cluster main_client named (at named) (λ o w. refl)
      (cluster-Answers main_client)

reconcile_instance-IsPolling_example :
    (o : Outcome) × ((reconcile_instance cluster portal_key (at named)).0 ≡ done o) × IsPolling o
reconcile_instance-IsPolling_example =
    reconcile_instance-IsPolling cluster portal_key main_instance (at named) refl

create_remote-orphaned_example :
    (let o =
        deleted
          (create_remote cluster main_client named
            (application_from_spec named)
            (at named)).1.world in
      (handle_delete cluster main_client o (at o)).1.calls
      ≡ updated_sp (without_finalizer cluster o) ∷ [])
create_remote-orphaned_example =
    create_remote-orphaned cluster-Stores main_client named (application_from_spec named) (at named)
      (at _) refl refl
