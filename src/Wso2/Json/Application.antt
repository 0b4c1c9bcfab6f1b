-- ===== src/Wso2/Json/Application.antt =====
-- internal/wso2/application.go: how `Application` is written as JSON, from its struct tags.
use wso2is_operator.Base.{
  Slice, Option, none, some, List, elems, appended, ◌≡◌, refl, ap, if◌then◌else◌,
}
use wso2is_operator.Wso2.App.{Claim, AuthenticationStep, Application, SamlConfig, OAuth2Config}
use wso2is_operator.Wso2.Json.{
  Json, null, obj, arr, num, str, bool, field, end, Fields, opt, items, slice_of, is_nonempty,
  opt_bool, opt_str, opt_num, opt_strs, get, read_bool, read_str, read_num, read_strs, read_list,
  read_slice_of, read_opt_list, read-slice_of, reads,
}
use wso2is_operator.Wso2.Json.Oauth.{oauth2_fields, read_oauth2, read-oauth2_fields}
use wso2is_operator.Wso2.Json.Saml.{saml_fields, read_saml, read-saml_fields, saml_fields-canonical}

abbrev fields_of : Option Json → Fields
fields_of (some (obj fs)) = fs
fields_of _ = end

abbrev pub claim_json : Claim → Json
claim_json c = obj (field "uri" (str c.uri) (field "mandatory" (bool c.mandatory) end))

abbrev claim_of : Fields → Claim
claim_of fs = record { uri = read_str (get "uri" fs); mandatory = read_bool (get "mandatory" fs) }

abbrev read_claim : Option Json → Claim
read_claim v = claim_of (fields_of v)

abbrev pub step_json : AuthenticationStep → Json
step_json c = obj (
    field "step" (num c.step) (
      opt_strs "localAuthenticators" c.local_authenticators (
        opt_str "federatedIDP" c.federated_idp
          (opt_str "FederatedAuthenticator" c.federated_authenticator end))))

abbrev step_of : Fields → AuthenticationStep
step_of fs = record {
  step = read_num (get "step" fs);
  local_authenticators = read_strs (get "localAuthenticators" fs);
  federated_idp = read_str (get "federatedIDP" fs);
  federated_authenticator = read_str (get "FederatedAuthenticator" fs);
}

abbrev read_step : Option Json → AuthenticationStep
read_step v = step_of (fields_of v)

-- A nil pointer is `null`.
abbrev pub pointer_json : {A : Type 0} → (A → Fields) → Option A → Json
pointer_json f none = null
pointer_json f (some a) = obj (f a)

abbrev read_pointer : {A : Type 0} → (Fields → A) → Option Json → Option A
read_pointer r (some (obj fs)) = some (r fs)
read_pointer r _ = none

unfoldable pub application_fields : Application → Fields
application_fields a = field "id" (num a.id) (
    field "resourceID" (str a.resource_id) (
      field "name" (str a.name) (
        field "description" (str a.description) (
          opt (is_nonempty a.claims) "claims" (arr (items claim_json a.claims)) (
            opt_str "subjectURI" a.subject_claim_uri (
              field "oauth2" (pointer_json oauth2_fields a.oauth2) (
                field "saml" (pointer_json saml_fields a.saml) (
                  field "authenticationStep" (slice_of step_json a.authentication_steps) (
                    field "authenticationScript" (str a.authentication_script) (
                      opt_bool "alwaysSendBackAuthenticatedListOfIDPs"
                        a.always_send_back_authenticated_list_of_idps
                        (field "enableAuthorization" (bool a.enable_authorization) (
                          field "skipConsent" (bool a.skip_consent) (
                            field "skipLogoutConsent" (bool a.skip_logout_consent) (
                              field "useTenantInSub" (bool a.use_tenant_in_sub) (
                                field "useUserstoreInSub" (bool a.use_userstore_in_sub) (
                                  field "useUserstoreInRoles" (bool a.use_userstore_in_roles) (
                                    opt_num "stepForSubject" a.step_for_subject (
                                      opt_num "stepForAttr" a.step_for_attributes
                                        end))))))))))))))))))

pub read_application : Fields → Application
read_application fs = record {
  id = read_num (get "id" fs);
  resource_id = read_str (get "resourceID" fs);
  name = read_str (get "name" fs);
  description = read_str (get "description" fs);
  claims = read_list read_claim (get "claims" fs);
  subject_claim_uri = read_str (get "subjectURI" fs);
  oauth2 = read_pointer read_oauth2 (get "oauth2" fs);
  saml = read_pointer read_saml (get "saml" fs);
  authentication_steps = read_slice_of read_step (get "authenticationStep" fs);
  authentication_script = read_str (get "authenticationScript" fs);
  always_send_back_authenticated_list_of_idps =
      read_bool (get "alwaysSendBackAuthenticatedListOfIDPs" fs);
  enable_authorization = read_bool (get "enableAuthorization" fs);
  skip_consent = read_bool (get "skipConsent" fs);
  skip_logout_consent = read_bool (get "skipLogoutConsent" fs);
  use_tenant_in_sub = read_bool (get "useTenantInSub" fs);
  use_userstore_in_sub = read_bool (get "useUserstoreInSub" fs);
  use_userstore_in_roles = read_bool (get "useUserstoreInRoles" fs);
  step_for_subject = read_num (get "stepForSubject" fs);
  step_for_attributes = read_num (get "stepForAttr" fs);
}

read-claim_json : (c : Claim) → read_claim (some (claim_json c)) ≡ c
read-claim_json c = simp reads

read-step_json : (c : AuthenticationStep) → read_step (some (step_json c)) ≡ c
read-step_json c = simp reads

read_pointer-oauth2 :
    (o : Option OAuth2Config) → read_pointer read_oauth2 (some (pointer_json oauth2_fields o)) ≡ o
read_pointer-oauth2 none = refl
read_pointer-oauth2 (some c) = ap some (read-oauth2_fields c)

-- A configuration up to the difference between a nil and an empty slice of ACS URLs.
abbrev pub canonical_saml : Option SamlConfig → Option SamlConfig
canonical_saml none = none
canonical_saml (some c) = some (record c { acs_urls = appended (elems c.acs_urls) })

read_pointer-saml :
    (o : Option SamlConfig)
    → read_pointer read_saml (some (pointer_json saml_fields o)) ≡ canonical_saml o
read_pointer-saml none = refl
read_pointer-saml (some c) = ap some (read-saml_fields c)

abbrev pub canonical : Application → Application
canonical a = record a { saml = canonical_saml a.saml }

read_steps :
    (xs : Slice AuthenticationStep) → read_slice_of read_step (some (slice_of step_json xs)) ≡ xs
read_steps = read-slice_of step_json read_step read-step_json

read_claims :
    (xs : List Claim)
    → read_list read_claim (if is_nonempty xs then some (arr (items claim_json xs)) else none) ≡ xs
read_claims = read_opt_list claim_json read_claim read-claim_json

-- The JSON holds every field of an application, in the form of `canonical`.
pub read-application_fields :
    (a : Application) → read_application (application_fields a) ≡ canonical a
unfolding read_application application_fields
read-application_fields a =
    simp (reads, read_steps, read_claims, read_pointer-oauth2, read_pointer-saml)

pointer_json-canonical :
    (o : Option SamlConfig)
    → pointer_json saml_fields (canonical_saml o) ≡ pointer_json saml_fields o
pointer_json-canonical none = refl
pointer_json-canonical (some c) = ap obj (saml_fields-canonical c)

pub application_fields-canonical :
    (a : Application) → application_fields (canonical a) ≡ application_fields a
unfolding application_fields
application_fields-canonical a = rw (pointer_json-canonical a.saml) refl
