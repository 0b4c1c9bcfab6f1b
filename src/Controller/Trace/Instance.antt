-- ===== src/Controller/Trace/Instance.antt =====
-- The calls that `Reconcile` of the WSO2ISInstance reconciler can make.
use wso2is_operator.Base.{ℕ, String, ◌<>◌, Bool, true, false, refl, ◌==◌}
use wso2is_operator.Api.Instance.{Wso2IsInstance}
use wso2is_operator.Wso2.Client.Transport.{Client, new_request, do_request}
use wso2is_operator.Wso2.Client.Scim.{ping}
use wso2is_operator.System.Kube.{ObjectKey, Secret, Lookup, found, not_found, failed}
use wso2is_operator.System.Platform.{Platform, System, Call, sent, updated_instance, recorded}
use wso2is_operator.System.Trace.{
  Extends, Rule, extending, call-Only, event-Only, read-Only, Only, runs, Only-pure, Only-bind,
  Only-then, Only-if, Only-Option, Only-Result,
}
use wso2is_operator.Controller.Phase.{phase_failed, phase_ready}
use wso2is_operator.Controller.Reconcile.Entry.{client_of}
use wso2is_operator.Controller.Instance.{
  set_phase_no_requeue, set_instance_phase, connected, check_connection, check_secret,
  secret_missing, after_secret, reconcile_existing, after_instance_lookup, reconcile_instance,
}
use wso2is_operator.Controller.Trace.Client.{check_ping-Only}

-- A request that reads, a write of an instance's status, or an event.
abbrev pub is_observation : Call → Bool
is_observation (sent req) = req.method == "GET"
is_observation (updated_instance _) = true
is_observation (recorded _) = true
is_observation _ = false

module _ (P : Platform) where
  abbrev Q : Rule P
  Q = extending is_observation

  set_phase_no_requeue-Only :
      (i : Wso2IsInstance) (phase msg : String) → Only Q (set_phase_no_requeue P i phase msg)
  unfolding set_phase_no_requeue
  set_phase_no_requeue-Only i phase msg =
      Only-bind Q _ _ (read-Only is_observation _)
        (λ now. Only-bind Q _ _ (call-Only is_observation _ _ refl) (λ _. Only-pure Q _))

  set_instance_phase-Only :
      (i : Wso2IsInstance) (phase msg : String) (requeue : ℕ)
      → Only Q (set_instance_phase P i phase msg requeue)
  unfolding set_instance_phase
  set_instance_phase-Only i phase msg requeue =
      Only-bind Q _ _ (set_phase_no_requeue-Only i phase msg)
        (λ r. Only-Option Q r _ _ (λ e. Only-pure Q _) (Only-pure Q _))

  connected-Only : (i : Wso2IsInstance) → Only Q (connected P i)
  unfolding connected
  connected-Only i =
      Only-bind Q _ _ (set_phase_no_requeue-Only i phase_ready ("Connected to " <> i.spec.base_url))
        (λ r.
          Only-Option Q r _ _ (λ e. Only-pure Q _)
            (Only-if Q (i.status.phase == phase_ready) _ _ (Only-pure Q _)
              (Only-then Q _ _ (event-Only is_observation _ refl) (Only-pure Q _))))

  ping-Only : (c : Client) → Only Q (ping P c)
  unfolding ping do_request new_request
  ping-Only c =
      Only-bind Q _ _ (Only-bind Q _ _ (call-Only is_observation _ _ refl) (λ _. Only-pure Q _))
        (λ r. check_ping-Only P Q r.error r.response r.out)

  check_connection-Only : (i : Wso2IsInstance) (c : Client) → Only Q (check_connection P i c)
  unfolding check_connection
  check_connection-Only i c = Only-bind Q _ _ (ping-Only c) (λ r.
      Only-Result Q r _ _
        (λ e.
          Only-then Q _ _ (event-Only is_observation _ refl)
            (set_instance_phase-Only i phase_failed e 15))
        (λ _. connected-Only i))

  secret_missing-Only : (i : Wso2IsInstance) (e : String) → Only Q (secret_missing P i e)
  unfolding secret_missing
  secret_missing-Only i e =
      Only-then Q _ _ (event-Only is_observation _ refl) (set_instance_phase-Only i _ _ _)

  check_secret-Only : (i : Wso2IsInstance) (sec : Secret) → Only Q (check_secret P i sec)
  unfolding check_secret
  check_secret-Only i sec =
      Only-if Q _ _ _
        (Only-then Q _ _ (event-Only is_observation _ refl) (set_instance_phase-Only i _ _ _))
        (check_connection-Only i (client_of i sec))

  after_secret-Only : (i : Wso2IsInstance) (r : Lookup Secret) → Only Q (after_secret P i r)
  unfolding after_secret
  after_secret-Only i (not_found e) = secret_missing-Only i e
  after_secret-Only i (failed e) = secret_missing-Only i e
  after_secret-Only i (found sec) = check_secret-Only i sec

  after_instance_lookup-Only : (r : Lookup Wso2IsInstance) → Only Q (after_instance_lookup P r)
  unfolding after_instance_lookup reconcile_existing
  after_instance_lookup-Only (not_found e) = Only-pure Q _
  after_instance_lookup-Only (failed e) = Only-pure Q _
  after_instance_lookup-Only (found i) =
      Only-bind Q _ _ (read-Only is_observation _) (after_secret-Only i)

-- Whatever the APIs answer, a reconciliation of an instance only observes: each request to the server
-- is a GET, and beyond that there are only writes of the instance's status, and events.
pub reconcile_instance-Extends :
    (P : Platform) (key : ObjectKey) (s : System P)
    → Extends is_observation s (reconcile_instance P key s).1
unfolding reconcile_instance
reconcile_instance-Extends P key s =
    runs
      (Only-bind (extending is_observation) _ _ (read-Only is_observation _)
        (after_instance_lookup-Only P))
      s
