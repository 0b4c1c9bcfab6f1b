-- ===== src/RoundTrip/Settled.antt =====
-- When the reconciler stops to update the application that it has written.
use wso2is_operator.Base.{String, Bool, true, false, List, none, some, elems, ℤ, ◌≡◌}
use wso2is_operator.Api.Sp.{Wso2Sp}
use wso2is_operator.Wso2.App.{Claim, OAuth2Config, SamlConfig, Application}
use wso2is_operator.Wso2.Json.{Json}
use wso2is_operator.Controller.Spec.{application_from_spec, authentication_steps_from_spec, is_some}
use wso2is_operator.RoundTrip.Application.{read_back}
use wso2is_operator.RoundTrip.Application.Kept.{number_of, default_number}

-- What `reconcileApplication` compares with, given the text of the script.
abbrev pub wanted : Wso2Sp → String → Application
wanted sp script = record (application_from_spec sp) { authentication_script = script }

-- The spec gives an OAuth and a SAML part, does not ask for the list of identity providers, and its two
-- step numbers are those of steps.
abbrev pub IsSettled : Wso2Sp → Type 0
IsSettled sp =
    let cs = elems (authentication_steps_from_spec sp) in
    (is_some sp.spec.oauth2 ≡ true)
    × (is_some sp.spec.saml ≡ true)
    × (sp.spec.always_send_back_authenticated_list_of_idps ≡ false)
    × (number_of sp.spec.step_for_subject cs (default_number cs) ≡ sp.spec.step_for_subject)
    × (number_of sp.spec.step_for_attributes cs (default_number cs) ≡ sp.spec.step_for_attributes)

abbrev oauth_is_enabled : Application → Bool
oauth_is_enabled a = elim a.oauth2 [ none ↦ false | some c ↦ c.enabled ]

abbrev saml_is_enabled : Application → Bool
saml_is_enabled a = elim a.saml [ none ↦ false | some c ↦ c.enabled ]

module _ (sort_claims : List Claim → List Claim) (sp : Wso2Sp) (script : String) (o : OAuth2Config)
    (m : SamlConfig) (claims : List Claim) (id : ℤ) (resource_id : String) where
  abbrev reread : Application
  unfolding application_from_spec authentication_steps_from_spec
  reread =
      read_back id resource_id
        (record (wanted sp script) { claims = claims; oauth2 = some o; saml = some m })
