-- ===== src/Controller/Liveness/Lookups.antt =====
-- The client's lookups return a result, where the server answers in its documented form.
use wso2is_operator.Base.{
  String, Bool, true, false, Option, none, some, ◌≡◌, inl, inr, refl, if◌then◌else◌,
}
use wso2is_operator.Base.Exit.{Exit, Returns, type_assertion}
use wso2is_operator.Base.Result.{Result, ok, err}
use wso2is_operator.System.Http.{Response}
use wso2is_operator.System.Platform.{Platform, pure, panic, lift, ◌>>=◌}
use wso2is_operator.System.Ends.{Ends, ends, Anything, Ends-pure, Ends-bind, Ends-if, Ends-Option}
use wso2is_operator.Wso2.Soap.Envelope.{ResponseEnvelope}
use wso2is_operator.Wso2.Soap.Saml.{GetSamlSpResponseBody}
use wso2is_operator.Wso2.App.{SamlConfig, Application}
use wso2is_operator.Wso2.Json.{Json, Items, Fields, nil, cons, end, arr, get}
use wso2is_operator.Wso2.Map.Application.{map_get_application}
use wso2is_operator.Wso2.Map.Saml.{map_saml_application}
use wso2is_operator.Wso2.Client.Transport.{Client, Reply}
use wso2is_operator.Wso2.Client.Soap.{
  zero_oauth_reply, zero_saml_reply, zero_application_reply, oauth2_result, saml_result,
  application_result, no_applications, get_application_oauth2_config, get_application_saml_config,
  fetch_application, get_application_by_name,
}
use wso2is_operator.Controller.Liveness.Answers.{Fits, HasArray, HasReturn, Answers}
use wso2is_operator.Controller.Liveness.Client.{do_json-Ends, do_soap-Ends}

-- Code that may panic returns if it is known to.
Ends-lift : {P : Platform} {A : Type 0} (e : Exit A) → Returns e → Ends {P = P} Anything (lift e)
unfolding lift
Ends-lift e (a, h) = ends (λ s. (a, h, tt))

abbrev HasResponse : {R : Type 0} → Reply R → Type 0
HasResponse r = (resp : Response) × (r.response ≡ some resp)

-- No nil configuration without an error.
abbrev pub IsKnown : Result (Option SamlConfig) → Type 0
IsKnown (ok none) = ⊥
IsKnown _ = Unit

module _ (P : Platform) where
  oauth2_result-Ends :
      (r : Reply _)
      → (resp : Response) × (r.response ≡ some resp)
      → Ends {P = P} Anything (oauth2_result r)
  unfolding oauth2_result
  oauth2_result-Ends r (resp, e) = rw e (
      Ends-if _ _ _ (Ends-pure _ tt)
        (Ends-Option r.error _ _ (λ e. Ends-pure _ tt) (Ends-pure _ tt)))

  application_result-Ends :
      (r : Reply _)
      → Fits (λ o. Returns (map_get_application o)) r
      → Ends {P = P} Anything (application_result r)
  unfolding application_result
  application_result-Ends r (inl (e, h)) = rw h (Ends-pure _ tt)
  application_result-Ends r (inr h) =
      Ends-Option r.error _ _ (λ e. Ends-pure _ tt)
        (Ends-bind _ _ (Ends-lift _ h) (λ a _. Ends-pure _ tt))

  no_applications-Ends : (fs : Fields) → HasArray fs → Ends {P = P} Anything (no_applications fs)
  unfolding no_applications
  no_applications-Ends fs (vs, h) = go (get "applications" fs) vs h
    where
      go :
          (j : Option Json) (vs : Items)
          → j ≡ some (arr vs)
          → Ends {P = P} {A = Bool} Anything (elim j [
            | some (arr nil) ↦ pure true
            | some (arr (cons v vs)) ↦ pure false
            | _ ↦ panic type_assertion
          ])
      go j nil h = rw h (Ends-pure _ tt)
      go j (cons v vs) h = rw h (Ends-pure _ tt)

  saml-Returns :
      (o : ResponseEnvelope GetSamlSpResponseBody) → HasReturn o → Returns (map_saml_application o)
  unfolding map_saml_application
  saml-Returns o (d, h) = rw h (_, refl)

  saml_result-Ends : (r : Reply _) → Fits HasReturn r → Ends {P = P} IsKnown (saml_result r)
  unfolding saml_result
  saml_result-Ends r (inl (e, h)) = rw h (Ends-pure _ tt)
  saml_result-Ends r (inr (d, h)) =
      Ends-Option r.error _ _ (λ e. Ends-pure _ tt)
        (rw h (
          Ends-bind {Q = Anything} _ _ (Ends-lift _ (saml-Returns r.out (d, h)))
            (λ a _. Ends-pure _ tt)))

  module _ (c : Client) (answers : Answers P c) where
    pub get_application_oauth2_config-Ends :
        (name : String) → Ends Anything (get_application_oauth2_config P c name)
    unfolding get_application_oauth2_config
    get_application_oauth2_config-Ends name =
        Ends-bind _ _
          (do_soap-Ends P c HasResponse _ _ _ (some P.decode_oauth) zero_oauth_reply
            (answers.responds name))
          (λ r h. oauth2_result-Ends r h)

    pub get_application_saml_config-Ends :
        (issuer : String) → Ends IsKnown (get_application_saml_config P c issuer)
    unfolding get_application_saml_config
    get_application_saml_config-Ends issuer =
        Ends-bind _ _
          (do_soap-Ends P c (Fits HasReturn) _ _ _ (some P.decode_saml) zero_saml_reply
            (answers.knows issuer))
          (λ r h. saml_result-Ends r h)

    fetch_application-Ends : (name : String) → Ends Anything (fetch_application P c name)
    unfolding fetch_application
    fetch_application-Ends name =
        Ends-bind _ _
          (do_soap-Ends P c (Fits (λ o. Returns (map_get_application o))) _ _ _
            (some P.decode_application) zero_application_reply (answers.describes name))
          (λ r h. application_result-Ends r h)

    pub get_application_by_name-Ends :
        (name : String) → Ends Anything (get_application_by_name P c name)
    unfolding get_application_by_name
    get_application_by_name-Ends name =
        Ends-bind _ _
          (do_json-Ends P c (Fits HasArray) _ _ _ (some P.decode_object) end (answers.lists name))
          (λ r h. listed r h)
      where
        listed :
            (r : Reply Fields)
            → Fits HasArray r
            → Ends {P = P} {A = Result (Option Application)} Anything (elim r.error [
              | some e ↦ pure (err e)
              | none ↦ no_applications r.out >>= λ empty.
                  if empty then pure (ok none) else fetch_application P c name
            ])
        listed r (inl (e, h)) = rw h (Ends-pure _ tt)
        listed r (inr h) =
            Ends-Option r.error _ _ (λ e. Ends-pure _ tt)
              (Ends-bind _ _ (no_applications-Ends r.out h)
                (λ b _. Ends-if _ _ _ (Ends-pure _ tt) (fetch_application-Ends name)))
