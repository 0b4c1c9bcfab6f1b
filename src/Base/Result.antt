-- ===== src/Base/Result.antt =====
-- Go's `(value, error)` results. An error is its message: the program reads nothing else of the
-- errors that it passes on.
use Prim.Native.String.{String}

pub data Result (A : Type 0) : Type 0 where
  ok : A → Result A
  err : String → Result A

infixl 5 ◌>>=◌
abbrev pub ◌>>=◌ : {A B : Type 0} → Result A → (A → Result B) → Result B
ok a >>= f = f a
err e >>= f = err e
