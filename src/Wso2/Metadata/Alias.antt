-- ===== src/Wso2/Metadata/Alias.antt =====
-- internal/wso2/saml.go: `deriveAlias`.
pub mod Laws
use Prim.Native.Char.{code}
use Prim.Native.Nat.{ℕ}
use Prim.Native.String.{String, [], ◌∷◌, len, slice}
use mathlib.Core.Bool.{Bool, true, false, ◌||◌}
use mathlib.Core.Option.{Option, none, some}
use text.Mathlib.Text.{◌==◌}
use wso2is_operator.Base.{nat_eq, ltb, if◌then◌else◌}

-- `s[3:]`, if the text begins with "://".
abbrev strip_separator : String → Option String
strip_separator (a ∷ b ∷ c ∷ s) =
    if nat_eq (code a) b':'
    then if nat_eq (code b) b'/' then if nat_eq (code c) b'/' then some s else none else none
    else none
strip_separator _ = none

-- `s[strings.Index(s, "://")+3:]`
after_separator : String → Option String
after_separator [] = none
after_separator (c ∷ s) = elim (strip_separator (c ∷ s)) [
  | some rest ↦ some rest
  | none ↦ after_separator s
]

abbrev pub ends_host : ℕ → Bool
ends_host c = nat_eq c b'/' || nat_eq c b'?' || nat_eq c b'#'

-- The text before its first "/", "?" or "#", or all of it.
until_path : String → String
until_path [] = []
until_path (c ∷ s) = let rest = until_path s in if ends_host (code c) then [] else c ∷ rest

-- The text before its last ":".
before_port : String → Option String
before_port [] = none
before_port (c ∷ s) = elim (before_port s) [
  | some t ↦ some (c ∷ t)
  | none ↦ if nat_eq (code c) b':' then some [] else none
]

abbrev get_or : Option String → String → String
get_or none s = s
get_or (some t) s = t

-- The host segment of an entity ID.
unfoldable pub host_segment : String → String
unfolding after_separator until_path before_port
host_segment entity_id =
    let s = get_or (after_separator entity_id) entity_id in
    let t = until_path s in get_or (before_port t) t

-- Go counts and slices bytes, as `len` and `slice` do.
unfoldable pub derive_alias : String → String → String
unfolding host_segment
derive_alias cert entity_id =
    let s = host_segment entity_id in
    if s == "" then if ltb 16 (len cert) then slice cert 0 16 else cert else s
