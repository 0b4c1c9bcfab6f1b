-- ===== src/Base/Exit.antt =====
-- Pure Go code that may panic.
use mathlib.Core.Path.{◌≡◌}

-- The run-time panics that the program can meet.
pub data Panic : Type 0 where
  nil_dereference : Panic
  index_out_of_range : Panic
  type_assertion : Panic

pub data Exit (A : Type 0) : Type 0 where
  done : A → Exit A
  panicked : Panic → Exit A

infixl 5 ◌>>=◌
abbrev pub ◌>>=◌ : {A B : Type 0} → Exit A → (A → Exit B) → Exit B
done a >>= f = f a
panicked p >>= f = panicked p

-- A call that returns: the form in which totality is stated.
abbrev pub Returns : {A : Type 0} → Exit A → Type 0
Returns {A} e = (a : A) × (e ≡ done a)
