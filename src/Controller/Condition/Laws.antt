-- ===== src/Controller/Condition/Laws.antt =====
-- What `setCondition` does to a list of conditions, read by type.
use wso2is_operator.Base.{
  String, false, List, [], ◌∷◌, Option, none, some, ℤ, ◌==◌, eq_iff, eq_refl, ◌≡◌, refl, sym, subst,
  ◌∙◌, ne_of_eq_false, if◌then◌else◌, find, Bool-cases, inl, inr, eq_false_of_ne,
}
use wso2is_operator.Api.Meta.{Condition, ConditionStatus}
use wso2is_operator.Controller.Condition.{same_status, at_time, set_condition}

-- The condition of a type.
abbrev pub lookup : String → List Condition → Option Condition
unfolding find
lookup kind cs = find (λ c. c.kind == kind) cs

-- The time that a condition gets, if its type has the entry `old`.
abbrev pub transition : ℤ → ConditionStatus → Option Condition → ℤ
transition now status none = now
transition now status (some old) =
    if same_status old.status status then old.last_transition_time else now

-- No type occurs twice.
abbrev pub Unique : List Condition → Type 0
Unique [] = Unit
Unique (c ∷ cs) = (lookup c.kind cs ≡ none) × Unique cs

-- A condition that is set is found under its type afterwards, with the transition time of the old
-- one if there was one with the same status, and the present time otherwise.
pub lookup-set_condition :
    (now : ℤ) (new : Condition) (cs : List Condition)
    → lookup new.kind (set_condition now new cs)
      ≡ some (at_time (transition now new.status (lookup new.kind cs)) new)
unfolding set_condition find
lookup-set_condition now new [] = rw (eq_refl new.kind) refl
lookup-set_condition now new (c ∷ cs) = elim (Bool-cases (c.kind == new.kind)) [
  | inl e ↦ elim (Bool-cases (same_status c.status new.status)) [
    | inl f ↦ rw (e, f, eq_refl new.kind) refl
    | inr f ↦ rw (e, f, eq_refl new.kind) refl
  ]
  | inr e ↦ rw (e, e) (lookup-set_condition now new cs)
]

flipped : (s t : String) → (s == t) ≡ false → (t == s) ≡ false
flipped s t h = eq_false_of_ne t s (λ e. ne_of_eq_false s t h (sym e))

-- When a condition is set, what is found under another type stays.
pub lookup-set_condition_other :
    (now : ℤ) (new : Condition) (kind : String) (cs : List Condition)
    → (new.kind == kind) ≡ false
    → lookup kind (set_condition now new cs) ≡ lookup kind cs
unfolding set_condition find
lookup-set_condition_other now new kind [] differ = rw differ refl
lookup-set_condition_other now new kind (c ∷ cs) differ = elim (Bool-cases (c.kind == new.kind)) [
  | inl e ↦ elim (Bool-cases (same_status c.status new.status)) [
    | inl f ↦ rw (e, f, differ, (eq_iff c.kind new.kind).0 e, differ) refl
    | inr f ↦ rw (e, f, differ, (eq_iff c.kind new.kind).0 e, differ) refl
  ]
  | inr e ↦ rw (e, lookup-set_condition_other now new kind cs differ) refl
]

-- Read by type, the list behaves as a map that `setCondition` updates at one key: the type of the new
-- condition leads to it, with the transition time of the old one if there was one with the same
-- status and the present time otherwise, and every other type leads to what it led to before.
pub lookup-set_condition_any :
    (now : ℤ) (new : Condition) (kind : String) (cs : List Condition)
    → lookup kind (set_condition now new cs) ≡ (
        if new.kind == kind
        then some (at_time (transition now new.status (lookup new.kind cs)) new)
        else lookup kind cs)
lookup-set_condition_any now new kind cs = elim (Bool-cases (new.kind == kind)) [
  | inl e ↦ rw e (
      subst
        (λ k.
          lookup k (set_condition now new cs)
          ≡ some (at_time (transition now new.status (lookup new.kind cs)) new))
        ((eq_iff new.kind kind).0 e) (lookup-set_condition now new cs))
  | inr e ↦ rw e (lookup-set_condition_other now new kind cs e)
]

-- A list of conditions in which no type occurs twice keeps that property when a condition is set.
pub set_condition-Unique :
    (now : ℤ) (new : Condition) (cs : List Condition)
    → Unique cs
    → Unique (set_condition now new cs)
unfolding set_condition find
set_condition-Unique now new [] u = (refl, tt)
set_condition-Unique now new (c ∷ cs) (fresh, u) = elim (Bool-cases (c.kind == new.kind)) [
  | inl e ↦
      let same = (eq_iff c.kind new.kind).0 e in
      let fresh' = subst (λ k. lookup k cs ≡ none) same fresh in
      elim (Bool-cases (same_status c.status new.status)) [
        | inl f ↦ rw (e, f) (fresh', u)
        | inr f ↦ rw (e, f) (fresh', u)
      ]
  | inr e ↦ rw e (
    lookup-set_condition_other now new c.kind cs (flipped c.kind new.kind e) ∙ fresh,
    set_condition-Unique now new cs u,
  )
]
