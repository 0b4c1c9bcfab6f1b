-- ===== src/Controller/Secrets/Laws.antt =====
-- What the upsert of a secret writes.
use wso2is_operator.Base.{
  String, false, [], ◌∷◌, none, ◌==◌, eq_refl, eq_iff, ◌≡◌, refl, ◌∙◌, Bool-cases, inl, inr, All,
  filter, Option, some,
}
use wso2is_operator.Base.Exit.{done}
use wso2is_operator.Api.Meta.{get_text}
use wso2is_operator.Api.Sp.{Wso2Sp}
use wso2is_operator.System.Platform.{Platform, System, pure}
use wso2is_operator.Controller.Secrets.{
  Texts, insert, copy_into, is_filled, upsert_application_secret,
}

get_text-insert : (k v : String) (m : Texts) → get_text k (insert k v m) ≡ v
unfolding get_text insert
get_text-insert k v [] = rw (eq_refl k) refl
get_text-insert k v ((j, w) ∷ m) = elim (Bool-cases (j == k)) [
  | inl e ↦ rw (e, eq_refl k) refl
  | inr e ↦ rw (e, e) (get_text-insert k v m)
]

get_text-insert_other :
    (j k v : String) (m : Texts) → (k == j) ≡ false → get_text j (insert k v m) ≡ get_text j m
unfolding get_text insert
get_text-insert_other j k v [] differ = rw differ refl
get_text-insert_other j k v ((i, w) ∷ m) differ = elim (Bool-cases (i == k)) [
  | inl e ↦ rw (e, differ, (eq_iff i k).0 e, differ) refl
  | inr e ↦ rw (e, get_text-insert_other j k v m differ) refl
]

-- When new entries are copied into a secret, a key that is not among them keeps its value.
pub get_text-copy_into_other :
    (j : String) (m kv : Texts)
    → All (λ e. (e.0 == j) ≡ false) kv
    → get_text j (copy_into m kv) ≡ get_text j m
unfolding copy_into
get_text-copy_into_other j m [] h = refl
get_text-copy_into_other j m ((k, v) ∷ kv) (differ, h) =
    get_text-copy_into_other j (insert k v m) kv h ∙ get_text-insert_other j k v m differ

-- A new key for which no further entry follows gets its new value, whatever stood in the secret
-- under it.
pub get_text-copy_into :
    (k v : String) (m kv : Texts)
    → All (λ e. (e.0 == k) ≡ false) kv
    → get_text k (copy_into m ((k, v) ∷ kv)) ≡ v
unfolding copy_into
get_text-copy_into k v m kv h =
    get_text-copy_into_other k (insert k v m) kv h ∙ get_text-insert k v m

abbrev pub value_or : String → Option (String × String) → String
value_or old none = old
value_or old (some e) = e.1

none_filled : (kv : Texts) → All (λ e. is_filled e ≡ false) kv → filter is_filled kv ≡ []
unfolding filter
none_filled [] h = refl
none_filled (e ∷ kv) (empty, h) = rw (empty, none_filled kv h) refl

-- If every entry has an empty key or an empty value, no call is made and there is no error: the
-- secret is neither read nor created.
pub upsert_application_secret-idle :
    (P : Platform) (sp : Wso2Sp) (kv : Texts) (s : System P)
    → All (λ e. is_filled e ≡ false) kv
    → upsert_application_secret P sp kv s ≡ (done none, s)
unfolding upsert_application_secret pure
upsert_application_secret-idle P sp kv s h = rw (none_filled kv h) refl
