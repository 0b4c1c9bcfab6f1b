-- ===== src/Wso2/Json.antt =====
-- The values that `encoding/json` writes, the `omitempty` option, and reading a value back.
pub mod Oauth
pub mod Saml
pub mod Application
use wso2is_operator.Base.{
  String, Bool, true, false, not, List, [], ◌∷◌, Option, none, some, Slice, elems, appended, ap, ℤ,
  pos, eqb_ℤ, eqb_ℤ_iff, ◌==◌, eq_iff, if◌then◌else◌, ◌≡◌, refl, sym, arith, Bool-cases, inl, inr,
}

mutual
  pub data Json : Type 0 where
    null : Json
    bool : Bool → Json
    num : ℤ → Json
    str : String → Json
    arr : Items → Json
    obj : Fields → Json

  pub data Items : Type 0 where
    nil : Items
    cons : Json → Items → Items

  pub data Fields : Type 0 where
    end : Fields
    field : String → Json → Fields → Fields

-- A field that is written if the test holds.
unfoldable pub opt : Bool → String → Json → Fields → Fields
opt true k v fs = field k v fs
opt false k v fs = fs

-- The elements of a slice.
abbrev pub items : {A : Type 0} → (A → Json) → List A → Items
items f [] = nil
items f (x ∷ xs) = cons (f x) (items f xs)

abbrev pub strs : List String → Items
strs = items str

-- A nil slice is `null`.
abbrev pub slice_of : {A : Type 0} → (A → Json) → Slice A → Json
slice_of f none = null
slice_of f (some xs) = arr (items f xs)

abbrev pub slice_json : Slice String → Json
slice_json = slice_of str

abbrev pub is_nonempty : {A : Type 0} → List A → Bool
is_nonempty [] = false
is_nonempty (_ ∷ _) = true

-- `omitempty`, for each type of field.
abbrev pub opt_bool : String → Bool → Fields → Fields
opt_bool k b = opt b k (bool b)

abbrev pub opt_str : String → String → Fields → Fields
opt_str k s = opt (not (s == "")) k (str s)

abbrev pub opt_num : String → ℤ → Fields → Fields
opt_num k n = opt (not (eqb_ℤ n (pos 0))) k (num n)

abbrev pub opt_strs : String → List String → Fields → Fields
opt_strs k xs = opt (is_nonempty xs) k (arr (strs xs))

abbrev pub slice_nonempty : Slice String → Bool
slice_nonempty none = false
slice_nonempty (some xs) = is_nonempty xs

-- The value of a field.
unfoldable pub get : String → Fields → Option Json
get k end = none
get k (field n v fs) = if n == k then some v else get k fs

pub get-field :
    (k n : String) (v : Json) (fs : Fields)
    → get k (field n v fs) ≡ (if n == k then some v else get k fs)
unfolding get
get-field k n v fs = refl

pub get-opt :
    (k n : String) (b : Bool) (v : Json) (fs : Fields)
    → get k (opt b n v fs) ≡ (if n == k then if b then some v else get k fs else get k fs)
unfolding get opt
get-opt k n true v fs = refl
get-opt k n false v fs = ground arith

pub get-end : (k : String) → get k end ≡ none
unfolding get
get-end k = refl

pub ruleset gets = (get-field, get-opt, get-end)

-- Reading a field back: a field that is missing is zero.
abbrev pub read_bool : Option Json → Bool
read_bool (some (bool b)) = b
read_bool _ = false

abbrev pub read_str : Option Json → String
read_str (some (str s)) = s
read_str _ = ""

abbrev pub read_num : Option Json → ℤ
read_num (some (num n)) = n
read_num _ = pos 0

abbrev read_items : {A : Type 0} → (Option Json → A) → Items → List A
read_items r nil = []
read_items r (cons v is) = r (some v) ∷ read_items r is

abbrev pub read_list : {A : Type 0} → (Option Json → A) → Option Json → List A
read_list r (some (arr is)) = read_items r is
read_list r _ = []

abbrev pub read_slice_of : {A : Type 0} → (Option Json → A) → Option Json → Slice A
read_slice_of r (some (arr is)) = some (read_items r is)
read_slice_of r _ = none

abbrev pub read_strs : Option Json → List String
read_strs = read_list read_str

abbrev pub read_slice : Option Json → Slice String
read_slice = read_slice_of read_str

pub read_opt_bool : (b : Bool) → read_bool (if b then some (bool b) else none) ≡ b
read_opt_bool true = refl
read_opt_bool false = refl

pub read_opt_str : (s : String) → read_str (if not (s == "") then some (str s) else none) ≡ s
read_opt_str s = elim (Bool-cases (s == "")) [
  | inl e ↦ rw e (sym ((eq_iff s "").0 e))
  | inr e ↦ rw e refl
]

pub read_opt_num : (n : ℤ) → read_num (if not (eqb_ℤ n (pos 0)) then some (num n) else none) ≡ n
read_opt_num n = elim (Bool-cases (eqb_ℤ n (pos 0))) [
  | inl e ↦ rw e (sym ((eqb_ℤ_iff n (pos 0)).0 e))
  | inr e ↦ rw e refl
]

module _ {A : Type 0} (f : A → Json) (r : Option Json → A)
    (back : (a : A) → r (some (f a)) ≡ a) where
  read_items-items : (xs : List A) → read_items r (items f xs) ≡ xs
  read_items-items [] = refl
  read_items-items (x ∷ xs) = rw (back x, read_items-items xs) refl

  pub read_opt_list :
      (xs : List A) → read_list r (if is_nonempty xs then some (arr (items f xs)) else none) ≡ xs
  read_opt_list [] = refl
  read_opt_list (x ∷ xs) = read_items-items (x ∷ xs)

  pub read-slice_of : (xs : Slice A) → read_slice_of r (some (slice_of f xs)) ≡ xs
  read-slice_of none = refl
  read-slice_of (some xs) = rw (read_items-items xs) refl

pub read_opt_strs :
    (xs : List String) → read_strs (if is_nonempty xs then some (arr (strs xs)) else none) ≡ xs
read_opt_strs = read_opt_list str read_str (λ s. refl)

pub read_slice_json : (xs : Slice String) → read_slice (some (slice_json xs)) ≡ xs
read_slice_json = read-slice_of str read_str (λ s. refl)

-- `omitempty` writes a nil slice and an empty one alike.
pub read_opt_slice :
    (xs : Slice String)
    → appended (read_strs (if slice_nonempty xs then some (arr (strs (elems xs))) else none))
      ≡ appended (elems xs)
read_opt_slice none = refl
read_opt_slice (some xs) = ap appended (read_opt_strs xs)

pub ruleset reads = (
  gets, read_opt_bool, read_opt_str, read_opt_num, read_opt_strs, read_slice_json, read_opt_slice,
)
