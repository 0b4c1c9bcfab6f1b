-- ===== src/Base/Lists.antt =====
-- Lists, and Go slices where the program can tell a nil slice from an empty one.
use Prim.Native.Nat.{ℕ, zero, suc}
use mathlib.Core.Path.{◌≡◌, refl}
use mathlib.Core.Bool.{Bool, true, false}
use mathlib.Core.Option.{Option, none, some}
use mathlib.Core.List.{List, [], ◌∷◌}
use wso2is_operator.Base.Tests.{if◌then◌else◌}

-- `nil` is `none`. A slice whose nil-ness nothing observes (it is ranged over, counted, appended
-- to, or written with `omitempty`) is a plain list.
abbrev pub Slice : Type 0 → Type 0
Slice A = Option (List A)

abbrev pub elems : {A : Type 0} → Slice A → List A
elems none = []
elems (some xs) = xs

-- The slice that `append` builds from a nil slice.
abbrev pub appended : {A : Type 0} → List A → Slice A
appended [] = none
appended (x ∷ xs) = some (x ∷ xs)

pub elems-appended : {A : Type 0} (xs : List A) → elems (appended xs) ≡ xs
elems-appended [] = refl
elems-appended (x ∷ xs) = refl

abbrev pub length {ℓ} : {A : Type ℓ} → List A → ℕ
length [] = 0
length (x ∷ xs) = suc (length xs)

abbrev pub take {ℓ} : {A : Type ℓ} → ℕ → List A → List A
take zero xs = []
take (suc n) [] = []
take (suc n) (x ∷ xs) = x ∷ take n xs

abbrev pub drop {ℓ} : {A : Type ℓ} → ℕ → List A → List A
drop zero xs = xs
drop (suc n) [] = []
drop (suc n) (x ∷ xs) = drop n xs

abbrev pub All {ℓ κ} : {A : Type ℓ} → (A → Type κ) → List A → Type κ
All P [] = Unit
All P (x ∷ xs) = P x × All P xs

-- The first element that passes a test, as a loop with `break` finds it.
unfoldable pub find {ℓ} : {A : Type ℓ} → (A → Bool) → List A → Option A
find p [] = none
find p (x ∷ xs) = if p x then some x else find p xs

-- The last element that passes a test, as a loop that overwrites finds it.
unfoldable pub find_last {ℓ} : {A : Type ℓ} → (A → Bool) → List A → Option A
find_last p [] = none
find_last p (x ∷ xs) = elim (find_last p xs) [
  | some y ↦ some y
  | none ↦ if p x then some x else none
]

unfoldable pub any {ℓ} : {A : Type ℓ} → (A → Bool) → List A → Bool
any p [] = false
any p (x ∷ xs) = if p x then true else any p xs

unfoldable pub filter {ℓ} : {A : Type ℓ} → (A → Bool) → List A → List A
filter p [] = []
filter p (x ∷ xs) = let rest = filter p xs in if p x then x ∷ rest else rest
