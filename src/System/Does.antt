-- ===== src/System/Does.antt =====
-- Code that returns, what it returns, and what it does to the system, all at once.
use wso2is_operator.Base.{Bool, true, false, Option, none, some, ◌≡◌, refl, if◌then◌else◌}
use wso2is_operator.Base.Exit.{done}
use wso2is_operator.System.Platform.{Platform, M, System, pure, ◌>>=◌, ◌>>◌}
use wso2is_operator.System.Trace.{Rule, Only, runs}
use wso2is_operator.System.Ends.{Ends, returned}

-- From every state the code returns a value with a property, in a state that the rule allows.
pub data Does {P : Platform} {A : Type 0} (Q : Rule P) (R : A → Type 0) (m : M P A) : Type 0 where
  does : ((s : System P) → (a : A) × ((m s).0 ≡ done a) × Q.rel s (m s).1 × R a) → Does Q R m

pub did :
    {P : Platform} {A : Type 0} {Q : Rule P} {R : A → Type 0} {m : M P A}
    → Does Q R m
    → (s : System P) → (a : A) × ((m s).0 ≡ done a) × Q.rel s (m s).1 × R a
did (does f) = f

module _ {P : Platform} (Q : Rule P) where
  pub Does-both : {A : Type 0} {R : A → Type 0} {m : M P A} → Only Q m → Ends R m → Does Q R m
  Does-both o e = does (λ s. let (a, same, r) = returned e s in (a, same, runs o s, r))

  pub Does-pure : {A : Type 0} {R : A → Type 0} (a : A) → R a → Does {P = P} Q R (pure a)
  unfolding pure
  Does-pure a r = does (λ s. (a, refl, Q.stay s, r))

  pub Does-bind :
      {A B : Type 0} {R : A → Type 0} {T : B → Type 0} (m : M P A) (f : A → M P B)
      → Does Q R m
      → ((a : A) → R a → Does Q T (f a))
      → Does {P = P} Q T (m >>= f)
  unfolding ◌>>=◌
  Does-bind m f h k = does (λ s.
      let (a, e, q, r) = did h s in
      let (b, e', q', t) = did (k a r) (m s).1 in
      rw e (b, e', Q.compose s (m s).1 (f a (m s).1).1 q q', t))

  pub Does-then :
      {B : Type 0} {R : Unit {0} → Type 0} {T : B → Type 0} (m : M P (Unit {0})) (k : M P B)
      → Does Q R m
      → Does Q T k
      → Does {P = P} Q T (m >> k)
  unfolding ◌>>◌
  Does-then m k h j = Does-bind m (λ _. k) h (λ _ _. j)

  -- The branches use the outcome of the test.
  pub Does-test :
      {A : Type 0} {R : A → Type 0} (b : Bool) (m k : M P A)
      → (b ≡ true → Does Q R m)
      → (b ≡ false → Does Q R k)
      → Does {P = P} Q R (if b then m else k)
  Does-test true m k h j = h refl
  Does-test false m k h j = j refl

  pub Does-Option :
      {A B : Type 0} {R : B → Type 0} (o : Option A) (k : A → M P B) (m : M P B)
      → ((a : A) → o ≡ some a → Does Q R (k a))
      → (o ≡ none → Does Q R m)
      → Does {P = P} Q R (elim o [ some a ↦ k a | none ↦ m ])
  Does-Option none k m h j = j refl
  Does-Option (some a) k m h j = h a refl
