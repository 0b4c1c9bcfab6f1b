-- ===== src/Controller/Changed.antt =====
-- internal/controller/helpers.go: has a configuration changed? `hash` is the SHA-256 sum, in
-- hexadecimal, of the value's JSON: the parameter `digest` stands for `encoding/json`, `crypto/sha256`
-- and `encoding/hex` behind one another.
pub mod Laws
use wso2is_operator.Base.{String, Bool, not, List, ◌==◌, pos}
use wso2is_operator.Wso2.App.{Claim, OAuth2Config, SamlConfig, Application}
use wso2is_operator.Wso2.Json.{Json, obj, bool, str, field, end, slice_json}
use wso2is_operator.Wso2.Json.Oauth.{oauth2_fields}
use wso2is_operator.Wso2.Json.Application.{application_fields}

-- The `map[string]any` that `samlSPHasChanged` hashes; its keys are written in order.
abbrev pub saml_view : SamlConfig → Json
saml_view c = obj (
    field "acsurls" (slice_json c.acs_urls) (
      field "attr" (bool c.enable_attribute_profile) (
        field "attr_def" (bool c.enable_attributes_by_default)
          (field "issuer" (str c.issuer) end))))

module _ (digest : Json → String) where
  unfoldable pub oauth2_has_changed : OAuth2Config → OAuth2Config → Bool
  oauth2_has_changed existing desired =
      not (digest (obj (oauth2_fields existing)) == digest (obj (oauth2_fields desired)))

  unfoldable pub saml_sp_has_changed : SamlConfig → SamlConfig → Bool
  saml_sp_has_changed existing desired =
      not (digest (saml_view existing) == digest (saml_view desired))

-- `sort.Slice` by URI, which is not stable: some function that sorts.
module _ (sort_claims : List Claim → List Claim) where
  -- The sort works in place, so it reorders the claims of the argument too.
  unfoldable pub sorted_in_place : Application → Application
  sorted_in_place a = record a { claims = sort_claims a.claims }

  unfoldable pub normalize_application : Application → Application
  unfolding sorted_in_place
  normalize_application a = record (sorted_in_place a) { id = pos 0; resource_id = "" }

  module _ (digest : Json → String) where
    -- The answer, with the two applications as the sorting leaves them.
    unfoldable pub app_has_changed : Application → Application → Bool × Application × Application
    app_has_changed existing desired = (
      not (
          digest (obj (application_fields (normalize_application existing)))
          == digest (obj (application_fields (normalize_application desired)))),
      sorted_in_place existing,
      sorted_in_place desired,
    )
