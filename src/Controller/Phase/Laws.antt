-- ===== src/Controller/Phase/Laws.antt =====
-- What `setPhase` does on each branch.
use wso2is_operator.Base.{ℕ, String, none, ◌≡◌, refl, eq_refl}
use wso2is_operator.Base.Exit.{done}
use wso2is_operator.Api.Sp.{Wso2Sp}
use wso2is_operator.System.Platform.{Platform, System, pure, call, ◌>>=◌}
use wso2is_operator.Controller.Phase.{set_phase}

-- An object that is in the phase, with the message, is not written: there is no call, and the
-- object comes back as it was, to be queued again.
pub set_phase-same :
    (P : Platform) (sp : Wso2Sp) (phase msg : String) (requeue : ℕ) (s : System P)
    → sp.status.phase ≡ phase
    → sp.status.message ≡ msg
    → set_phase P sp phase msg requeue s
      ≡ (done (record { sp = sp; requeue_after = requeue; error = none }), s)
unfolding set_phase pure call ◌>>=◌
set_phase-same P sp phase msg requeue s e f = rw (e, f, eq_refl phase, eq_refl msg) refl
