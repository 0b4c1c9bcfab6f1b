-- ===== src/Controller/Trace/Cluster.antt =====
-- What the rest of a reconciliation needs of a rule, and `setPhase` and `upsertApplicationSecret`.
use wso2is_operator.Base.{ℕ, String, [], ◌∷◌}
use wso2is_operator.Api.Sp.{Wso2Sp}
use wso2is_operator.Wso2.Client.Transport.{Client}
use wso2is_operator.System.Kube.{ObjectKey, Secret, Event}
use wso2is_operator.System.Platform.{
  Platform, created_secret, updated_secret, updated_status, patched_status, fetched_url, call, read,
  event,
}
use wso2is_operator.System.Trace.{
  Rule, Only, Only-pure, Only-bind, Only-if, Only-Result, Only-Lookup,
}
use wso2is_operator.Controller.Phase.{with_phase, set_phase}
use wso2is_operator.Controller.Secrets.{
  Texts, write_secret, upsert_filled, upsert_application_secret,
}
use wso2is_operator.Controller.Trace.Client.{Sends}

pub record WritesSecrets (P : Platform) (Q : Rule P) : Type 0 where
  pub reads : (k : ObjectKey) → Only Q (read (P.get_secret k))
  pub creates : (sec : Secret) → Only Q (call (created_secret sec) (P.create_secret sec))
  pub updates : (sec : Secret) → Only Q (call (updated_secret sec) (P.update_secret sec))

-- The rule allows all that a reconciliation of an application does.
pub record Allows (P : Platform) (Q : Rule P) (c : Client) : Type 0 where
  pub sends : Sends P Q c
  pub fetches : (url : String) → Only Q (call (fetched_url url) (P.fetch url))
  pub secrets : WritesSecrets P Q
  pub reads_config_map : (k : ObjectKey) → Only Q (read (P.get_config_map k))
  pub updates_status : (o : Wso2Sp) → Only Q (call (updated_status o) (P.update_sp_status o))
  pub patches_status :
      (base o : Wso2Sp) → Only Q (call (patched_status o) (P.patch_sp_status base o))
  pub records : (e : Event) → Only Q (event e)

module _ (P : Platform) (Q : Rule P) where
  pub set_phase-Only :
      (sp : Wso2Sp) (phase msg : String) (requeue : ℕ)
      → (let o = with_phase phase msg sp in Only Q (call (updated_status o) (P.update_sp_status o)))
      → Only Q (set_phase P sp phase msg requeue)
  unfolding set_phase
  set_phase-Only sp phase msg requeue h =
      Only-if Q _ _ _ (Only-pure Q _) (Only-bind Q _ _ h (λ _. Only-pure Q _))

  module _ (writes : WritesSecrets P Q) where
    write_secret-Only : (sp : Wso2Sp) (kv : Texts) → Only Q (write_secret P sp kv)
    unfolding write_secret
    write_secret-Only sp kv = Only-bind Q _ _ (writes.reads _) (λ r.
        Only-Lookup Q r _ _ _ (λ sec. writes.updates _)
          (λ e.
            Only-Result Q (P.set_controller_reference sp _) _ _ (λ e. Only-pure Q _)
              (λ sec. writes.creates sec))
          (λ e. Only-pure Q _))

    upsert_filled-Only : (sp : Wso2Sp) (kv : Texts) → Only Q (upsert_filled P sp kv)
    unfolding upsert_filled
    upsert_filled-Only sp [] = Only-pure Q _
    upsert_filled-Only sp (e ∷ kv) = write_secret-Only sp (e ∷ kv)

    pub upsert-Only : (sp : Wso2Sp) (kv : Texts) → Only Q (upsert_application_secret P sp kv)
    unfolding upsert_application_secret
    upsert-Only sp kv = upsert_filled-Only sp _
