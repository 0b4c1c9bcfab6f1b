-- ===== src/Wso2/Metadata/Alias/Laws.antt =====
-- The alias is the host of the entity ID.
use Prim.Native.Char.{Char, code}
use Prim.Native.Nat.{ℕ}
use Prim.Native.String.{String, [], ◌∷◌, ◌++◌}
use mathlib.Core.Path.{◌≡◌, refl, ap}
use mathlib.Core.Logic.{◌≢◌}
use mathlib.Core.Bool.{Bool, false}
use mathlib.Core.Option.{none, some}
use native.Mathlib.Omega.{arith}
use text.Mathlib.TextLemmas.{nil-append, cons-append, append-nil}
use wso2is_operator.Base.{nat_eq, eq_false_of_ne}
use wso2is_operator.Wso2.Metadata.Alias.{
  strip_separator, after_separator, ends_host, until_path, before_port, host_segment, derive_alias,
}

-- No character of the text passes the test.
abbrev pub IsFreeOf : (ℕ → Bool) → String → Type 0
IsFreeOf p [] = Unit {0}
IsFreeOf p (c ∷ s) = (p (code c) ≡ false) × IsFreeOf p s

abbrev pub is_colon : ℕ → Bool
is_colon c = nat_eq c b':'

strip_separator_other :
    (c : Char) (s : String) → is_colon (code c) ≡ false → strip_separator (c ∷ s) ≡ none
strip_separator_other c (d ∷ e ∷ s) h = rw h refl
strip_separator_other c _ h = refl

after_separator-append :
    (scheme t : String)
    → IsFreeOf is_colon scheme
    → after_separator (scheme ++ (":" ∷ "/" ∷ "/" ∷ t)) ≡ some t
unfolding after_separator
after_separator-append [] t _ = rw nil-append refl
after_separator-append (c ∷ s) t (h, hs) =
    rw (cons-append, strip_separator_other c (s ++ (":" ∷ "/" ∷ "/" ∷ t)) h, after_separator)
      (after_separator-append s t hs)

until_path-append : (s t : String) → IsFreeOf ends_host s → until_path (s ++ t) ≡ s ++ until_path t
unfolding until_path
until_path-append [] t _ = simp nil-append
until_path-append (c ∷ s) t (h, hs) =
    simp cons-append (rw h (ap (λ r. c ∷ r) (until_path-append s t hs)))

before_port_free : (s : String) → IsFreeOf is_colon s → before_port s ≡ none
unfolding before_port
before_port_free [] _ = refl
before_port_free (c ∷ s) (h, hs) = ground (arith, before_port_free s hs)

before_port-append :
    (s t u : String) → before_port t ≡ some u → before_port (s ++ t) ≡ some (s ++ u)
unfolding before_port
before_port-append [] t u e = simp nil-append e
before_port-append (c ∷ s) t u e =
    simp cons-append (rw (before_port-append s t u e, before_port) refl)

before_port-colon : (port : String) → IsFreeOf is_colon port → before_port (":" ∷ port) ≡ some ""
unfolding before_port
before_port-colon port h = rw (before_port_free port h, before_port) refl

host_segment-url :
    (scheme host port path : String)
    → IsFreeOf is_colon scheme
    → IsFreeOf ends_host host
    → IsFreeOf ends_host port
    → IsFreeOf is_colon port
    → host_segment (scheme ++ (":" ∷ "/" ∷ "/" ∷ (host ++ (":" ∷ (port ++ ("/" ∷ path)))))) ≡ host
unfolding host_segment
host_segment-url scheme host port path s h p q =
    rw (after_separator-append scheme (host ++ (":" ∷ (port ++ ("/" ∷ path)))) s) (
      rw (until_path-append host (":" ∷ (port ++ ("/" ∷ path))) h) (
        rw (until_path-append port ("/" ∷ path) p, append-nil)
          (rw (before_port-append host (":" ∷ port) "" (before_port-colon port q))
            (append-nil host))))

-- For an entity ID of the form `scheme://host:port/path`, with a non-empty host, no colon in the
-- scheme or the port and no "/", "?" or "#" in the host or the port, the alias is the host.
pub derive_alias-url :
    (cert scheme host port path : String)
    → IsFreeOf is_colon scheme
    → IsFreeOf ends_host host
    → IsFreeOf ends_host port
    → IsFreeOf is_colon port
    → host ≢ ""
    → derive_alias cert (scheme ++ (":" ∷ "/" ∷ "/" ∷ (host ++ (":" ∷ (port ++ ("/" ∷ path))))))
      ≡ host
unfolding derive_alias
derive_alias-url cert scheme host port path s h p q n =
    rw (host_segment-url scheme host port path s h p q, eq_false_of_ne host "" n) refl
