-- ===== src/Controller/Trace/Unchanged.antt =====
-- What the reconciler does where the server has what the spec wants: nothing remote.
use wso2is_operator.Base.{Bool, true, false, ◌≡◌, refl}
use wso2is_operator.Api.Sp.{Wso2Sp}
use wso2is_operator.Wso2.App.{SamlConfig, Application}
use wso2is_operator.Wso2.Client.Transport.{Client}
use wso2is_operator.System.Platform.{
  Platform, System, Call, created_secret, updated_secret, updated_status, patched_status, recorded,
}
use wso2is_operator.System.Trace.{
  Extends, extending, call-Only, event-Only, read-Only, runs, Only-pure, Only-bind, Only-then,
  Only-else, Only-Option,
}
use wso2is_operator.Controller.Changed.{saml_sp_has_changed}
use wso2is_operator.Controller.Reconcile.Saml.{sync_saml_sp}
use wso2is_operator.Controller.Trace.Cluster.{WritesSecrets, upsert-Only}

-- Writes of secrets, and events.
abbrev pub is_bookkeeping : Call → Bool
is_bookkeeping (created_secret _) = true
is_bookkeeping (updated_secret _) = true
is_bookkeeping (recorded _) = true
is_bookkeeping _ = false

bookkeeping-WritesSecrets : (P : Platform) → WritesSecrets P (extending is_bookkeeping)
bookkeeping-WritesSecrets P = record {
  reads = λ k. read-Only is_bookkeeping _;
  creates = λ sec. call-Only is_bookkeeping _ _ refl;
  updates = λ sec. call-Only is_bookkeeping _ _ refl;
}

-- If the comparison finds no change in the SAML configuration, the reconciler sends nothing to the
-- server: it writes the secret with the inbound credentials, and records an event if that fails.
pub sync_saml_sp-unchanged :
    (P : Platform) (c : Client) (sp : Wso2Sp) (existing desired : SamlConfig) (s : System P)
    → saml_sp_has_changed P.digest existing desired ≡ false
    → Extends is_bookkeeping s (sync_saml_sp P c sp existing desired s).1
unfolding sync_saml_sp
sync_saml_sp-unchanged P c sp existing desired s same =
    let Q = extending is_bookkeeping in
    runs
      (Only-bind Q _ _ (upsert-Only P Q (bookkeeping-WritesSecrets P) sp _) (λ r.
        Only-Option Q r _ _
          (λ e. Only-then Q _ _ (event-Only is_bookkeeping _ refl) (Only-pure Q _))
          (Only-else Q _ _ _ same (Only-pure Q _))))
      s

abbrev pub is_status_write : Call → Bool
is_status_write (updated_status _) = true
is_status_write (patched_status _) = true
is_status_write _ = false
