-- ===== src/Base/Text.antt =====
-- What the program uses of Go's `strings` and `fmt` packages, on texts as lists of characters.
pub mod Split
use Prim.Native.Char.{Char, code}
use Prim.Native.Nat.{ℕ, zero, suc, ◌+◌, ◌-◌, ◌/◌, ◌%◌}
use Prim.Native.String.{String, [], ◌∷◌, ◌++◌}
use mathlib.Core.Path.{◌≡◌, refl}
use mathlib.Core.Bool.{Bool, true, false, ◌&&◌, ◌||◌}
use mathlib.Core.Option.{Option, none, some}
use mathlib.Core.List
use mathlib.Core.List.{List}
use wso2is_operator.Base.Tests.{leb, ltb, nat_eq, if◌then◌else◌}

-- `unicode.IsSpace`: Unicode's White_Space characters.
abbrev is_space : ℕ → Bool
is_space c =
    leb 9 c && leb c 13
    || nat_eq c 0x20
    || nat_eq c 0x85
    || nat_eq c 0xa0
    || nat_eq c 0x1680
    || leb 0x2000 c && leb c 0x200a
    || nat_eq c 0x2028
    || nat_eq c 0x2029
    || nat_eq c 0x202f
    || nat_eq c 0x205f
    || nat_eq c 0x3000

trim_left : String → String
trim_left [] = []
trim_left (c ∷ s) = if is_space (code c) then trim_left s else c ∷ s

trim_right : String → String
trim_right [] = []
trim_right (c ∷ s) = elim (trim_right s) [
  | [] ↦ if is_space (code c) then [] else c ∷ []
  | d ∷ t ↦ c ∷ d ∷ t
]

-- `strings.TrimSpace`
unfoldable pub trim_space : String → String
unfolding trim_left trim_right
trim_space s = trim_right (trim_left s)

-- `strings.Join`
unfoldable pub join : List String → String → String
join List.[] sep = []
join (List.◌∷◌ x List.[]) sep = x
join (List.◌∷◌ x (List.◌∷◌ y ys)) sep = x ++ (sep ++ join (List.◌∷◌ y ys) sep)

-- `strings.Split` at a one-character separator: the pieces of `cur ++ s`, of which `cur` holds no
-- separator. It never returns an empty slice.
split_from : ℕ → String → String → List String
split_from sep cur [] = List.◌∷◌ cur List.[]
split_from sep cur (c ∷ s) =
    let closed = List.◌∷◌ cur (split_from sep [] s) in
    let longer = split_from sep (cur ++ (c ∷ [])) s in
    if nat_eq (code c) sep then closed else longer

unfoldable pub split : String → ℕ → List String
unfolding split_from
split s sep = split_from sep [] s

-- The character of a text at an index, or the default.
abbrev nth_letter : ℕ → String → Char → Char
nth_letter i [] d = d
nth_letter zero (c ∷ s) d = c
nth_letter (suc i) (c ∷ s) d = nth_letter i s d

-- One character of `strings.ToLower`: the ASCII letters, and the two other characters whose lower
-- case is an ASCII letter. The rest is left alone here; its lower case is not ASCII, so a comparison
-- with an ASCII text cannot tell.
abbrev lower_code : Char → Char
lower_code c =
    if leb b'A' (code c) && leb (code c) b'Z'
    then nth_letter (code c - b'A') "abcdefghijklmnopqrstuvwxyz" c
    else if nat_eq (code c) 0x130
    then "i"
    else if nat_eq (code c) 0x212a
    then "k"
    else c

unfoldable pub to_lower : String → String
to_lower [] = []
to_lower (c ∷ s) = lower_code c ∷ to_lower s

-- `%d` for a natural number, by its digits; `fuel` bounds how many there are.
show_digits : ℕ → ℕ → String → String
show_digits zero n acc = acc
show_digits (suc fuel) n acc =
    let more = show_digits fuel (n / 10) (nth_letter (n % 10) "0123456789" "0" ∷ acc) in
    if ltb n 10 then nth_letter n "0123456789" "0" ∷ acc else more

-- A number has at most as many digits as its successor counts.
unfoldable pub show_nat : ℕ → String
unfolding show_digits
show_nat n = show_digits (suc n) n []
