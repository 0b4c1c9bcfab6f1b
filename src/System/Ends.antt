-- ===== src/System/Ends.antt =====
-- Code that returns, whatever the network and the Kubernetes API answer, and what it returns.
use wso2is_operator.Base.{String, Bool, Option, none, some, ◌≡◌, refl, if◌then◌else◌, true, false}
use wso2is_operator.Base.Exit.{done}
use wso2is_operator.Base.Result.{Result, ok, err}
use wso2is_operator.System.Kube.{Event, Lookup, found, not_found, failed}
use wso2is_operator.System.Platform.{
  Platform, M, System, Call, pure, read, call, event, ◌>>=◌, ◌>>◌,
}

-- From every state the code returns a value with a property: it does not panic.
pub data Ends {P : Platform} {A : Type 0} (Q : A → Type 0) (m : M P A) : Type 0 where
  ends : ((s : System P) → (a : A) × ((m s).0 ≡ done a) × Q a) → Ends Q m

pub returned :
    {P : Platform} {A : Type 0} {Q : A → Type 0} {m : M P A}
    → Ends Q m
    → (s : System P) → (a : A) × ((m s).0 ≡ done a) × Q a
returned (ends f) = f

abbrev pub Anything : {A : Type 0} → A → Type 0
Anything _ = Unit

module _ {P : Platform} where
  pub Ends-pure : {A : Type 0} {Q : A → Type 0} (a : A) → Q a → Ends {P = P} Q (pure a)
  unfolding pure
  Ends-pure a q = ends (λ s. (a, refl, q))

  pub Ends-read : {A : Type 0} (f : P.State → A × P.State) → Ends {P = P} Anything (read f)
  unfolding read
  Ends-read f = ends (λ s. ((f s.world).0, refl, tt))

  pub Ends-call :
      {A : Type 0} (Q : A → Type 0) (c : Call) (f : P.State → A × P.State)
      → ((w : P.State) → Q (f w).0)
      → Ends {P = P} Q (call c f)
  unfolding call
  Ends-call Q c f h = ends (λ s. ((f s.world).0, refl, h s.world))

  pub Ends-event : (e : Event) → Ends {P = P} Anything (event e)
  unfolding event
  Ends-event e = ends (λ s. (tt, refl, tt))

  pub Ends-bind :
      {A B : Type 0} {Q : A → Type 0} {R : B → Type 0} (m : M P A) (f : A → M P B)
      → Ends Q m
      → ((a : A) → Q a → Ends R (f a))
      → Ends {P = P} R (m >>= f)
  unfolding ◌>>=◌
  Ends-bind m f (ends h) k = ends (λ s. let (a, e, q) = h s in rw e (returned (k a q) (m s).1))

  pub Ends-then :
      {B : Type 0} {R : B → Type 0} (m : M P (Unit {0})) (k : M P B)
      → Ends Anything m
      → Ends R k
      → Ends {P = P} R (m >> k)
  unfolding ◌>>◌
  Ends-then m k h j = Ends-bind m (λ _. k) h (λ _ _. j)

  pub Ends-if :
      {A : Type 0} {Q : A → Type 0} (b : Bool) (m k : M P A)
      → Ends Q m
      → Ends Q k
      → Ends {P = P} Q (if b then m else k)
  Ends-if true m k h j = h
  Ends-if false m k h j = j

  -- A test whose outcome the branches use.
  pub Ends-test :
      {A : Type 0} {Q : A → Type 0} (b : Bool) (m k : M P A)
      → (b ≡ true → Ends Q m)
      → (b ≡ false → Ends Q k)
      → Ends {P = P} Q (if b then m else k)
  Ends-test true m k h j = h refl
  Ends-test false m k h j = j refl

  pub Ends-Option :
      {A B : Type 0} {Q : B → Type 0} (o : Option A) (k : A → M P B) (m : M P B)
      → ((a : A) → Ends Q (k a))
      → Ends Q m
      → Ends {P = P} Q (elim o [ some a ↦ k a | none ↦ m ])
  Ends-Option none k m h j = j
  Ends-Option (some a) k m h j = h a

  pub Ends-Result :
      {A B : Type 0} {Q : B → Type 0} (r : Result A) (k : String → M P B) (m : A → M P B)
      → ((e : String) → Ends Q (k e))
      → ((a : A) → Ends Q (m a))
      → Ends {P = P} Q (elim r [ err e ↦ k e | ok a ↦ m a ])
  Ends-Result (err e) k m h j = h e
  Ends-Result (ok a) k m h j = j a

  pub Ends-Lookup :
      {A B : Type 0} {Q : B → Type 0} (r : Lookup A) (k : A → M P B) (n m : String → M P B)
      → ((a : A) → Ends Q (k a))
      → ((e : String) → Ends Q (n e))
      → ((e : String) → Ends Q (m e))
      → Ends {P = P} Q (elim r [ found a ↦ k a | not_found e ↦ n e | failed e ↦ m e ])
  Ends-Lookup (found a) k n m h i j = h a
  Ends-Lookup (not_found e) k n m h i j = i e
  Ends-Lookup (failed e) k n m h i j = j e

  pub Ends-weaken :
      {A : Type 0} {Q R : A → Type 0} {m : M P A}
      → ((a : A) → Q a → R a)
      → Ends Q m
      → Ends {P = P} R m
  Ends-weaken f (ends h) = ends (λ s. let (a, e, q) = h s in (a, e, f a q))

  pub Ends-any : {A : Type 0} {Q : A → Type 0} {m : M P A} → Ends Q m → Ends {P = P} Anything m
  Ends-any h = Ends-weaken (λ _ _. tt) h
