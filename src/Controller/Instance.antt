-- ===== src/Controller/Instance.antt =====
-- internal/controller/wso2isinstance_controller.go: `Reconcile`, `setPhase` and `setPhaseNoRequeue`.
use wso2is_operator.Base.{ℕ, ℤ, String, ◌<>◌, Option, none, some, ◌==◌, ◌||◌, if◌then◌else◌}
use wso2is_operator.Base.Result.{ok, err}
use wso2is_operator.Api.Meta.{Condition, condition_true, condition_false}
use wso2is_operator.Api.Instance.{Wso2IsInstance}
use wso2is_operator.Wso2.Client.Transport.{Client}
use wso2is_operator.Wso2.Client.Scim.{ping}
use wso2is_operator.System.Kube.{ObjectKey, Secret, Lookup, found, not_found, failed}
use wso2is_operator.System.Platform.{Platform, M, updated_instance, call, read, pure, ◌>>=◌, ◌>>◌}
use wso2is_operator.Controller.Condition.{set_condition}
use wso2is_operator.Controller.Phase.{phase_failed, phase_ready, warn, notify}
use wso2is_operator.Controller.Reconcile.Entry.{
  Outcome, credentials_key, secret_text, client_of, failed_with, nothing_left,
}

abbrev pub condition_of : Wso2IsInstance → String → String → ℤ → Condition
condition_of i phase msg now = record {
  kind = "Available";
  status = if phase == phase_ready then condition_true else condition_false;
  reason = phase;
  message = msg;
  observed_generation = i.meta.generation;
  last_transition_time = now;
}

-- The status that `setPhaseNoRequeue` writes, at a time.
abbrev pub in_phase : Wso2IsInstance → String → String → ℤ → Wso2IsInstance
unfolding set_condition
in_phase i phase msg now = record i {
  status = record i.status {
    phase = phase;
    message = msg;
    conditions = set_condition now (condition_of i phase msg now) i.status.conditions;
  };
}

module _ (P : Platform) where
  unfoldable pub set_phase_no_requeue : Wso2IsInstance → String → String → M P (Option String)
  set_phase_no_requeue i phase msg = do
    now ← read P.now
    r ←
        call (updated_instance (in_phase i phase msg now))
          (P.update_instance_status (in_phase i phase msg now))
    pure r.0

  unfoldable pub set_instance_phase : Wso2IsInstance → String → String → ℕ → M P Outcome
  unfolding set_phase_no_requeue
  set_instance_phase i phase msg requeue = do
    e ← set_phase_no_requeue i phase msg
    elim e [
      | some e ↦ pure (failed_with e)
      | none ↦ pure (record { requeue_after = requeue; error = none })
    ]

  -- After a successful ping.
  unfoldable pub connected : Wso2IsInstance → M P Outcome
  unfolding set_phase_no_requeue
  connected i = do
    e ← set_phase_no_requeue i phase_ready ("Connected to " <> i.spec.base_url)
    elim e [
      | some e ↦ pure (failed_with e)
      | none ↦
          if i.status.phase == phase_ready
          then pure (record { requeue_after = 120; error = none })
          else do
            notify "Connected" "Reconciling"
            pure (record { requeue_after = 120; error = none })
    ]

  unfoldable pub check_connection : Wso2IsInstance → Client → M P Outcome
  unfolding set_instance_phase connected
  check_connection i c = do
    r ← ping P c
    elim r [
      | err e ↦ do warn "PingFailed" "Reconciling"; set_instance_phase i phase_failed e 15
      | ok _ ↦ connected i
    ]

  unfoldable pub check_secret : Wso2IsInstance → Secret → M P Outcome
  unfolding set_instance_phase check_connection
  check_secret i sec =
      if secret_text "username" sec == "" || secret_text "password" sec == ""
      then (do
        warn "InvalidSecret" "Reconciling"
        set_instance_phase i phase_failed "secret missing 'username' or 'password' keys" 120)
      else check_connection i (client_of i sec)

  unfoldable pub secret_missing : Wso2IsInstance → String → M P Outcome
  unfolding set_instance_phase
  secret_missing i e = do
    warn "SecretMissing" "Reconciling"
    set_instance_phase i phase_failed
        ("cannot read secret " <> (P.quote i.spec.credentials_secret.name <> (": " <> e))) 120

  unfoldable pub after_secret : Wso2IsInstance → Lookup Secret → M P Outcome
  unfolding check_secret secret_missing
  after_secret i (not_found e) = secret_missing i e
  after_secret i (failed e) = secret_missing i e
  after_secret i (found sec) = check_secret i sec

  unfoldable pub reconcile_existing : Wso2IsInstance → M P Outcome
  unfolding after_secret
  reconcile_existing i = do r ← read (P.get_secret (credentials_key i)); after_secret i r

  unfoldable pub after_instance_lookup : Lookup Wso2IsInstance → M P Outcome
  unfolding reconcile_existing
  after_instance_lookup (not_found e) = pure nothing_left
  after_instance_lookup (failed e) = pure (failed_with e)
  after_instance_lookup (found i) = reconcile_existing i

  unfoldable pub reconcile_instance : ObjectKey → M P Outcome
  unfolding after_instance_lookup
  reconcile_instance key = do r ← read (P.get_instance key); after_instance_lookup r
