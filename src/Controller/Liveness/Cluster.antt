-- ===== src/Controller/Liveness/Cluster.antt =====
-- `setPhase` and the operations on secrets return, and a failure that `setPhase` reports asks for
-- another turn.
use mathlib.Core.Bool.{false≢true}
use wso2is_operator.Base.{
  ℕ, String, Bool, true, false, Option, none, some, [], ◌∷◌, ap, ◌≡◌, refl, nat_eq, ◌≤◌, arith,
}
use wso2is_operator.Base.Result.{err}
use wso2is_operator.Api.Sp.{Wso2Sp}
use wso2is_operator.Wso2.App.{Application}
use wso2is_operator.System.Platform.{Platform}
use wso2is_operator.System.Ends.{
  Ends, Anything, Ends-pure, Ends-read, Ends-call, Ends-event, Ends-bind, Ends-then, Ends-if,
  Ends-Result, Ends-Lookup, Ends-weaken,
}
use wso2is_operator.Controller.Phase.{
  Turn, is_none, stops, phase_turn, phase_failed, set_phase, fail_with,
}
use wso2is_operator.Controller.Secrets.{
  Texts, write_secret, upsert_filled, upsert_application_secret, populate, populate_inbound_secrets,
  given, with_oauth2, with_saml,
}

-- No wait of more than five minutes is asked for.
abbrev pub IsSoon : Turn → Type 0
IsSoon t = t.requeue_after ≤ 300

-- `err != nil || !res.IsZero()`: the object is queued again, within five minutes where the turn says
-- when.
abbrev pub IsQueued : Turn → Type 0
IsQueued t = (stops t ≡ true) × IsSoon t

-- A write of the status goes through.
abbrev pub Saves : Platform → Type 0
Saves P = (o : Wso2Sp) (w : P.State) → (P.update_sp_status o w).0.0 ≡ none

phase_turn-IsQueued :
    (requeue : ℕ) (r : Option String × Wso2Sp)
    → nat_eq requeue 0 ≡ false
    → requeue ≤ 300
    → r.0 ≡ none
    → IsQueued (phase_turn requeue r)
phase_turn-IsQueued requeue (e, o) h soon k = go e k
  where
    go : (e : Option String) → e ≡ none → IsQueued (phase_turn requeue (e, o))
    go none k = (rw h refl, soon)
    go (some x) k = absurd (false≢true (ap is_none k))

module _ (P : Platform) (saves : Saves P) where
  pub set_phase-Ends :
      (sp : Wso2Sp) (phase msg : String) (requeue : ℕ)
      → nat_eq requeue 0 ≡ false
      → requeue ≤ 300
      → Ends IsQueued (set_phase P sp phase msg requeue)
  unfolding set_phase
  set_phase-Ends sp phase msg requeue h soon = Ends-if _ _ _ (Ends-pure _ (rw h refl, soon)) (
      Ends-bind _ _ (Ends-call (λ r. r.0 ≡ none) _ _ (saves _))
        (λ r k. Ends-pure _ (phase_turn-IsQueued requeue r h soon k)))

  pub fail_with-Ends : (sp : Wso2Sp) (r a m : String) → Ends IsQueued (fail_with P sp r a m)
  unfolding fail_with
  fail_with-Ends sp r a m =
      Ends-then _ _ (Ends-event _) (set_phase-Ends sp phase_failed m 30 refl (omega arith))

  pub fails : (sp : Wso2Sp) (r a m : String) → Ends IsSoon (fail_with P sp r a m)
  fails sp r a m = Ends-weaken (λ _ queued. queued.1) (fail_with-Ends sp r a m)

module _ (P : Platform) where
  write_secret-Ends : (sp : Wso2Sp) (kv : Texts) → Ends Anything (write_secret P sp kv)
  unfolding write_secret
  write_secret-Ends sp kv = Ends-bind _ _ (Ends-read _) (λ r _.
      Ends-Lookup r _ _ _ (λ sec. Ends-call Anything _ _ (λ _. tt))
        (λ e.
          Ends-Result (P.set_controller_reference sp _) _ _ (λ e. Ends-pure _ tt)
            (λ sec. Ends-call Anything _ _ (λ _. tt)))
        (λ e. Ends-pure _ tt))

  upsert_filled-Ends : (sp : Wso2Sp) (kv : Texts) → Ends Anything (upsert_filled P sp kv)
  unfolding upsert_filled
  upsert_filled-Ends sp [] = Ends-pure _ tt
  upsert_filled-Ends sp (e ∷ kv) = write_secret-Ends sp (e ∷ kv)

  pub upsert-Ends : (sp : Wso2Sp) (kv : Texts) → Ends Anything (upsert_application_secret P sp kv)
  unfolding upsert_application_secret
  upsert-Ends sp kv = upsert_filled-Ends sp _

  populate-Ends :
      (sp : Wso2Sp) (wanted : Bool) (put : Application → Texts → Application) (a : Application)
      → Ends Anything (populate P sp wanted put a)
  unfolding populate
  populate-Ends sp wanted put a =
      Ends-if _ _ _ (Ends-pure _ tt) (Ends-bind _ _ (Ends-read _) (λ _ _. Ends-pure _ tt))

  pub populate_inbound_secrets-Ends :
      (sp : Wso2Sp) (a : Application) → Ends Anything (populate_inbound_secrets P sp a)
  unfolding populate_inbound_secrets
  populate_inbound_secrets-Ends sp a =
      Ends-bind _ _ (populate-Ends sp (given sp.spec.oauth2) with_oauth2 a) (λ r _.
        Ends-Result r _ _ (λ e. Ends-pure (err e) tt)
          (λ a'. populate-Ends sp (given sp.spec.saml) with_saml a'))
