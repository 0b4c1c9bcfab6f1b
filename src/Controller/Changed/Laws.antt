-- ===== src/Controller/Changed/Laws.antt =====
-- What the change tests detect, where the digests of the two values do not collide.
use wso2is_operator.Base.{
  String, ℤ, pos, Bool, false, not, List, ◌==◌, eq_iff, eq_refl, ◌≡◌, refl, sym, ap, ◌∙◌, ◌↔◌,
  arith, Slice,
}
use wso2is_operator.Wso2.App.{Claim, OAuth2Config, SamlConfig, Application}
use wso2is_operator.Wso2.Json.{
  Json, obj, bool, str, field, slice_json, get, Fields, end, gets, read_bool, read_str, read_slice,
  read_slice_json,
}
use wso2is_operator.Wso2.Json.Oauth.{oauth2_fields, read_oauth2, read-oauth2_fields}
use wso2is_operator.Wso2.Json.Application.{
  application_fields, read_application, read-application_fields, canonical,
  application_fields-canonical,
}
use wso2is_operator.Controller.Changed.{
  saml_view, oauth2_has_changed, saml_sp_has_changed, normalize_application, app_has_changed,
}

abbrev pub members : Json → Fields
members (obj fs) = fs
members _ = end

-- The digest tells the two values apart if they differ.
abbrev pub NoCollision : (Json → String) → Json → Json → Type 0
NoCollision digest x y = digest x ≡ digest y → x ≡ y

not-eq-false_iff :
    (digest : Json → String) (x y : Json)
    → NoCollision digest x y
    → (not (digest x == digest y) ≡ false) ↔ (x ≡ y)
not-eq-false_iff digest x y inj = (
  λ h. inj ((eq_iff (digest x) (digest y)).0 (ground arith)),
  λ e. rw (e, eq_refl (digest y)) refl,
)

-- Where the digests of the two do not collide, an OAuth configuration counts as unchanged exactly if
-- it equals the existing one in every field.
pub oauth2_has_changed-eq-false_iff :
    (digest : Json → String) (existing desired : OAuth2Config)
    → NoCollision digest (obj (oauth2_fields existing)) (obj (oauth2_fields desired))
    → (oauth2_has_changed digest existing desired ≡ false) ↔ (existing ≡ desired)
unfolding oauth2_has_changed
oauth2_has_changed-eq-false_iff digest existing desired inj =
    let (to, from) = not-eq-false_iff digest _ _ inj in
    (
      λ h.
          sym (read-oauth2_fields existing)
          ∙ ap (λ j. read_oauth2 (members j)) (to h)
          ∙ read-oauth2_fields desired,
      λ e. from (ap (λ c. obj (oauth2_fields c)) e),
    )

-- What `samlSPHasChanged` looks at.
abbrev pub saml_key : SamlConfig → String × Slice String × Bool × Bool
saml_key c = (c.issuer, c.acs_urls, c.enable_attribute_profile, c.enable_attributes_by_default)

abbrev read_saml_key : Fields → String × Slice String × Bool × Bool
read_saml_key fs = (
  read_str (get "issuer" fs),
  read_slice (get "acsurls" fs),
  read_bool (get "attr" fs),
  read_bool (get "attr_def" fs),
)

read_saml_key_lem : (c : SamlConfig) → read_saml_key (members (saml_view c)) ≡ saml_key c
read_saml_key_lem c = simp (gets, read_slice_json)

abbrev view_of_key : String × Slice String × Bool × Bool → Json
view_of_key (issuer, urls, attr, attr_def) = obj (
    field "acsurls" (slice_json urls) (
      field "attr" (bool attr)
        (field "attr_def" (bool attr_def) (field "issuer" (str issuer) end))))

-- Where the digests do not collide, a SAML configuration counts as unchanged exactly if issuer, ACS
-- URLs and the two attribute flags are those of the existing one: a difference in any other field
-- is not seen.
pub saml_sp_has_changed-eq-false_iff :
    (digest : Json → String) (existing desired : SamlConfig)
    → NoCollision digest (saml_view existing) (saml_view desired)
    → (saml_sp_has_changed digest existing desired ≡ false) ↔ (saml_key existing ≡ saml_key desired)
unfolding saml_sp_has_changed
saml_sp_has_changed-eq-false_iff digest existing desired inj =
    let (to, from) = not-eq-false_iff digest _ _ inj in
    (
      λ h.
          sym (read_saml_key_lem existing)
          ∙ ap (λ j. read_saml_key (members j)) (to h)
          ∙ read_saml_key_lem desired,
      λ e. from (ap view_of_key e),
    )

-- Where the digests do not collide, an application counts as unchanged exactly if it equals the
-- existing one but for ID, resource ID and what the sorting of the claims forgets, and but for nil
-- against empty ACS URLs.
pub app_has_changed-eq-false_iff :
    (sort_claims : List Claim → List Claim) (digest : Json → String)
    (existing desired : Application)
    → NoCollision digest
        (obj (application_fields (normalize_application sort_claims existing)))
        (obj (application_fields (normalize_application sort_claims desired)))
    → ((app_has_changed sort_claims digest existing desired).0 ≡ false) ↔ (
        canonical (normalize_application sort_claims existing)
        ≡ canonical (normalize_application sort_claims desired))
unfolding app_has_changed
app_has_changed-eq-false_iff sort_claims digest existing desired inj =
    let (to, from) = not-eq-false_iff digest _ _ inj in
    (
      λ h.
          sym (read-application_fields _)
          ∙ ap (λ j. read_application (members j)) (to h)
          ∙ read-application_fields _,
      λ e. from (
          ap obj (
            sym (application_fields-canonical _)
            ∙ ap application_fields e
            ∙ application_fields-canonical _)),
    )

unchanged : (digest : Json → String) (x y : Json) → x ≡ y → not (digest x == digest y) ≡ false
unchanged digest x y e = rw (e, eq_refl (digest y)) refl

-- Whatever the digest: an application that differs from the desired one in its IDs, and in its claims
-- only so that the sorting makes them the same list, counts as unchanged.
pub app_has_changed-reordered :
    (sort_claims : List Claim → List Claim) (digest : Json → String) (desired : Application)
    (claims : List Claim) (id : ℤ) (resource_id : String)
    → sort_claims claims ≡ sort_claims desired.claims
    → (app_has_changed sort_claims digest
        (record desired { claims = claims; id = id; resource_id = resource_id })
        desired).0
      ≡ false
unfolding app_has_changed normalize_application
app_has_changed-reordered sort_claims digest desired claims id resource_id same =
    unchanged digest _ _ (
      ap
        (λ cs.
          obj (application_fields (record desired { claims = cs; id = pos 0; resource_id = "" })))
        same)
