-- ===== src/Base/Text/Split.antt =====
-- `strings.Split` undoes `strings.Join`.
use Prim.Native.Char.{Char, code}
use Prim.Native.Nat.{ℕ}
use Prim.Native.String.{String, [], ◌∷◌, ◌++◌}
use mathlib.Core.Path.{◌≡◌, refl, ap, ◌∙◌}
use mathlib.Core.Bool.{false}
use mathlib.Core.List.{List}
use text.Mathlib.TextLemmas.{nil-append, cons-append, append-nil, append_assoc}
use wso2is_operator.Base.Tests.{nat_eq, nat_eq_iff}
use wso2is_operator.Base.Lists.{All}
use wso2is_operator.Base.Text.{join, split_from, split}

-- The text does not hold the separator.
abbrev pub Lacks : ℕ → String → Type 0
Lacks sep [] = Unit {0}
Lacks sep (c ∷ s) = (nat_eq (code c) sep ≡ false) × Lacks sep s

split_from-append :
    (sep : ℕ) (cur x t : String)
    → Lacks sep x
    → split_from sep cur (x ++ t) ≡ split_from sep (cur ++ x) t
unfolding split_from
split_from-append sep cur [] t _ = simp (nil-append, append-nil)
split_from-append sep cur (c ∷ s) t (h, hs) = simp cons-append (
    rw (h, split_from)
      (split_from-append sep (cur ++ (c ∷ [])) s t hs
        ∙ simp (append_assoc, cons-append, nil-append)))

split_from_last :
    (sep : ℕ) (cur x : String) → Lacks sep x → split_from sep cur x ≡ List.◌∷◌ (cur ++ x) List.[]
unfolding split_from
split_from_last sep cur [] _ = rw append-nil refl
split_from_last sep cur (c ∷ s) (h, hs) =
    rw (h, split_from)
      (split_from_last sep (cur ++ (c ∷ [])) s hs ∙ simp (append_assoc, cons-append, nil-append))

split_from-separator :
    (sep : Char) (cur t : String)
    → split_from (code sep) cur (sep ∷ t) ≡ List.◌∷◌ cur (split_from (code sep) [] t)
unfolding split_from
split_from-separator sep cur t = rw ((nat_eq_iff (code sep) (code sep)).1 refl) refl

-- A join of at least one piece, none of which holds the separator, splits into those pieces.
pub split-join :
    (sep : Char) (x : String) (xs : List String)
    → Lacks (code sep) x
    → All (Lacks (code sep)) xs
    → split (join (List.◌∷◌ x xs) (sep ∷ [])) (code sep) ≡ List.◌∷◌ x xs
unfolding split join
split-join sep x List.[] h _ = split_from_last (code sep) [] x h ∙ rw nil-append refl
split-join sep x (List.◌∷◌ y ys) h (k, ks) =
    split_from-append (code sep) [] x ((sep ∷ []) ++ join (List.◌∷◌ y ys) (sep ∷ [])) h
    ∙ simp (nil-append, cons-append)
        (split_from-separator sep x _ ∙ ap (List.◌∷◌ x) (split-join sep y ys k ks))
