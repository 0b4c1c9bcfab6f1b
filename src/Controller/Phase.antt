-- ===== src/Controller/Phase.antt =====
-- internal/controller: phases, `setPhase`, and what a step of the WSO2SP reconciler returns.
pub mod Laws
use wso2is_operator.Base.{
  ℕ, String, Bool, true, false, Option, none, some, ◌==◌, ◌&&◌, ◌||◌, not, nat_eq, if◌then◌else◌,
}
use wso2is_operator.Api.Sp.{Wso2Sp}
use wso2is_operator.System.Kube.{Event, EventType, warning, normal}
use wso2is_operator.System.Platform.{Platform, M, updated_status, call, event, pure, ◌>>=◌, ◌>>◌}

abbrev pub phase_pending : String
phase_pending = "Pending"

abbrev pub phase_failed : String
phase_failed = "Failed"

abbrev pub phase_ready : String
phase_ready = "Ready"

abbrev pub phase_paused : String
phase_paused = "Paused"

abbrev pub sp_finalizer : String
sp_finalizer = "wso2.it.auth.gr/sp-finalizer"

-- A Go `(ctrl.Result, error)`, with the object as the step leaves it. The result is the number of
-- seconds after which the object is queued again; 0 is the zero result.
pub record Turn : Type 0 where
  pub sp : Wso2Sp
  pub requeue_after : ℕ
  pub error : Option String

abbrev pub is_none : {A : Type 0} → Option A → Bool
is_none none = true
is_none (some _) = false

-- `err != nil || !res.IsZero()`, on which the callers return early.
abbrev pub stops : Turn → Bool
stops t = not (is_none t.error) || not (nat_eq t.requeue_after 0)

abbrev pub with_phase : String → String → Wso2Sp → Wso2Sp
with_phase phase msg sp = record sp { status = record sp.status { phase = phase; message = msg } }

abbrev pub warn : {P : Platform} → String → String → M P (Unit {0})
warn reason action = event (record { kind = warning; reason = reason; action = action })

abbrev pub notify : {P : Platform} → String → String → M P (Unit {0})
notify reason action = event (record { kind = normal; reason = reason; action = action })

-- What `setPhase` returns after the update: a failed one is dropped, with the requeue.
abbrev pub phase_turn : ℕ → Option String × Wso2Sp → Turn
phase_turn requeue (none, sp) = record { sp = sp; requeue_after = requeue; error = none }
phase_turn requeue (some e, sp) = record { sp = sp; requeue_after = 0; error = none }

module _ (P : Platform) where
  unfoldable pub set_phase : Wso2Sp → String → String → ℕ → M P Turn
  set_phase sp phase msg requeue =
      if sp.status.phase == phase && sp.status.message == msg
      then pure (record { sp = sp; requeue_after = requeue; error = none })
      else do
        let sp' = with_phase phase msg sp
        r ← call (updated_status sp') (P.update_sp_status sp')
        pure (phase_turn requeue r)

  -- The usual error path: an event, and the phase.
  unfoldable pub fail_with : Wso2Sp → String → String → String → M P Turn
  unfolding set_phase
  fail_with sp reason action msg = do warn reason action; set_phase sp phase_failed msg 30
