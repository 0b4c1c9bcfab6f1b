-- ===== src/Controller/Liveness/Instance.antt =====
-- A reconciliation of an existing instance returns an error or asks for the next one.
use wso2is_operator.Base.{ℕ, ◌≤◌, String, true, false, ◌≡◌, ◌⊎◌, inl, inr, refl, arith}
use wso2is_operator.Base.Exit.{done}
use wso2is_operator.Api.Instance.{Wso2IsInstance}
use wso2is_operator.Wso2.Client.Transport.{Client}
use wso2is_operator.Wso2.Client.Scim.Laws.{ping_lem}
use wso2is_operator.System.Kube.{ObjectKey, Secret, Lookup, found, not_found, failed}
use wso2is_operator.System.Platform.{Platform, System, read, ◌>>=◌}
use wso2is_operator.System.Ends.{
  Ends, ends, returned, Anything, Ends-pure, Ends-read, Ends-call, Ends-event, Ends-bind, Ends-then,
  Ends-if, Ends-Option, Ends-Result,
}
use wso2is_operator.Controller.Phase.{is_none, phase_failed, phase_ready}
use wso2is_operator.Controller.Reconcile.Entry.{Outcome, client_of}
use wso2is_operator.Controller.Instance.{
  set_phase_no_requeue, set_instance_phase, connected, check_connection, check_secret,
  secret_missing, after_secret, reconcile_existing, after_instance_lookup, reconcile_instance,
}

-- An error, upon which the instance is queued again, or another turn in 15 to 120 seconds.
abbrev pub IsPolling : Outcome → Type 0
IsPolling o =
    (is_none o.error ≡ false)
    ⊎ (is_none o.error ≡ true) × (15 ≤ o.requeue_after) × (o.requeue_after ≤ 120)

module _ (P : Platform) (i : Wso2IsInstance) where
  set_phase_no_requeue-Ends :
      (phase msg : String) → Ends Anything (set_phase_no_requeue P i phase msg)
  unfolding set_phase_no_requeue
  set_phase_no_requeue-Ends phase msg =
      Ends-bind _ _ (Ends-read _)
        (λ now _. Ends-bind _ _ (Ends-call Anything _ _ (λ _. tt)) (λ r _. Ends-pure _ tt))

  set_instance_phase-Ends :
      (phase msg : String) (requeue : ℕ)
      → 15 ≤ requeue
      → requeue ≤ 120
      → Ends IsPolling (set_instance_phase P i phase msg requeue)
  unfolding set_instance_phase
  set_instance_phase-Ends phase msg requeue low high =
      Ends-bind _ _ (set_phase_no_requeue-Ends phase msg) (λ e _.
        Ends-Option e _ _ (λ e. Ends-pure _ (inl refl)) (Ends-pure _ (inr (refl, low, high))))

  connected-Ends : Ends IsPolling (connected P i)
  unfolding connected
  connected-Ends = Ends-bind _ _ (set_phase_no_requeue-Ends phase_ready _) (λ e _.
      Ends-Option e _ _ (λ e. Ends-pure _ (inl refl))
        (Ends-if _ _ _ (Ends-pure _ (inr (refl, omega arith, omega arith)))
          (Ends-then _ _ (Ends-event _) (Ends-pure _ (inr (refl, omega arith, omega arith))))))

  check_connection-Ends : (c : Client) → Ends IsPolling (check_connection P i c)
  unfolding check_connection
  check_connection-Ends c =
      Ends-bind {Q = Anything} _ _ (ends (λ s. (_, ping_lem P c s, tt))) (λ r _.
        Ends-Result r _ _
          (λ e.
            Ends-then _ _ (Ends-event _)
              (set_instance_phase-Ends phase_failed e 15 (omega arith) (omega arith)))
          (λ _. connected-Ends))

  check_secret-Ends : (sec : Secret) → Ends IsPolling (check_secret P i sec)
  unfolding check_secret
  check_secret-Ends sec =
      Ends-if _ _ _
        (Ends-then _ _ (Ends-event _)
          (set_instance_phase-Ends phase_failed _ 120 (omega arith) (omega arith)))
        (check_connection-Ends (client_of i sec))

  secret_missing-Ends : (e : String) → Ends IsPolling (secret_missing P i e)
  unfolding secret_missing
  secret_missing-Ends e =
      Ends-then _ _ (Ends-event _)
        (set_instance_phase-Ends phase_failed _ 120 (omega arith) (omega arith))

  after_secret-Ends : (r : Lookup Secret) → Ends IsPolling (after_secret P i r)
  unfolding after_secret
  after_secret-Ends (not_found e) = secret_missing-Ends e
  after_secret-Ends (failed e) = secret_missing-Ends e
  after_secret-Ends (found sec) = check_secret-Ends sec

  reconcile_existing-Ends : Ends IsPolling (reconcile_existing P i)
  unfolding reconcile_existing
  reconcile_existing-Ends = Ends-bind _ _ (Ends-read _) (λ r _. after_secret-Ends r)

-- If the instance is found, its reconciliation always returns, with an error or with the request for
-- another turn in 15 to 120 seconds: an instance that exists is never left alone.
pub reconcile_instance-IsPolling :
    (P : Platform) (key : ObjectKey) (i : Wso2IsInstance) (s : System P)
    → (P.get_instance key s.world).0 ≡ found i
    → (o : Outcome) × ((reconcile_instance P key s).0 ≡ done o) × IsPolling o
unfolding reconcile_instance after_instance_lookup ◌>>=◌ read
reconcile_instance-IsPolling P key i s e =
    rw e
      (returned (reconcile_existing-Ends P i) (record s { world = (P.get_instance key s.world).1 }))
