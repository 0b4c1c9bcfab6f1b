-- ===== src/Controller/Invariant/Holding.antt =====
-- A property of the stored object that no write of the status can change is kept by all that a
-- reconciliation of an application does.
use wso2is_operator.Api.Sp.{Wso2Sp, Wso2SpStatus}
use wso2is_operator.Wso2.Client.Transport.{Client}
use wso2is_operator.System.Platform.{Platform}
use wso2is_operator.System.Stored.{
  Stores, holding, quiet_read-Only, quiet_call-Only, quiet_event-Only, status_call-Only,
  patch_call-Only,
}
use wso2is_operator.Controller.Trace.Client.{Sends}
use wso2is_operator.Controller.Trace.Cluster.{WritesSecrets, Allows}
use wso2is_operator.Controller.Trace.Object.{Connects}

-- The status can become anything.
abbrev pub IgnoresStatus : (Wso2Sp → Type 0) → Type 0
IgnoresStatus S = (x : Wso2Sp) (t : Wso2SpStatus) → S x → S (record x { status = t })

module _ {P : Platform} (st : Stores P) (S : Wso2Sp → Type 0) where
  pub holding-Connects : Connects P (holding st S)
  holding-Connects = record {
    reads_instance = λ k. quiet_read-Only st S _ (st.get_instance_quiet k);
    reads_secret = λ k. quiet_read-Only st S _ (st.get_secret_quiet k);
  }

  pub holding-Sends : (c : Client) → Sends P (holding st S) c
  holding-Sends c req _ = quiet_call-Only st S _ _ (st.send_quiet req)

  holding-WritesSecrets : WritesSecrets P (holding st S)
  holding-WritesSecrets = record {
    reads = λ k. quiet_read-Only st S _ (st.get_secret_quiet k);
    creates = λ sec. quiet_call-Only st S _ _ (st.create_secret_quiet sec);
    updates = λ sec. quiet_call-Only st S _ _ (st.update_secret_quiet sec);
  }

  pub holding-Allows : IgnoresStatus S → (c : Client) → Allows P (holding st S) c
  holding-Allows ignores c = record {
    sends = holding-Sends c;
    fetches = λ u. quiet_call-Only st S _ _ (st.fetch_quiet u);
    secrets = holding-WritesSecrets;
    reads_config_map = λ k. quiet_read-Only st S _ (st.get_config_map_quiet k);
    updates_status = λ o. status_call-Only st S o (λ x h. ignores x o.status h);
    patches_status = λ base o. patch_call-Only st S base o (λ x t _ h. ignores x t h);
    records = quiet_event-Only st S;
  }
