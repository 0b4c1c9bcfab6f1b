-- ===== src/Controller/Trace/Client.antt =====
-- The calls that the client's operations can make.
use wso2is_operator.Base.{
  String, ◌<>◌, Bool, true, false, Option, none, some, ◌≡◌, refl, ◌==◌, ◌&&◌, eq_refl, nat_eq,
}
use wso2is_operator.Base.Text.{show_nat}
use wso2is_operator.Base.Exit.{type_assertion}
use wso2is_operator.Base.Result.{Result, ok, err}
use wso2is_operator.Wso2.Client.Transport.{Client, Reply, new_request, do_request, do_json, do_soap}
use wso2is_operator.Wso2.Client.Scim.{
  check_ping, get_user_info, patch_group, join_user_to_group, join_admin_to_group, get_group_info,
  get_admin_group_membership,
}
use wso2is_operator.Wso2.App.{OAuth2Config, SamlConfig, Application}
use wso2is_operator.Wso2.Json.{Json, Fields, nil, cons, arr, get}
use wso2is_operator.System.Http.{Payload, Response, RequestOptions, HttpRequest}
use wso2is_operator.System.Platform.{Platform, sent, call, pure, panic}
use wso2is_operator.System.Trace.{
  Rule, Only, Only-pure, Only-panic, Only-lift, Only-bind, Only-if, Only-Option, Only-Result,
}
use wso2is_operator.Wso2.Client.Soap.{
  get_application_oauth2_config, oauth2_result, command, create_application_oauth2_config,
  update_application_oauth2_config, get_application_saml_config, saml_result,
  create_saml_application, delete_application, update_saml_application, application_result,
  no_applications, fetch_application, get_application_by_name, create_application,
  update_application,
}

-- The request carries the credentials and the TLS setting of the client.
abbrev pub is_from : Client → HttpRequest → Bool
is_from c req = req.username == c.username && req.password == c.password

-- The rule allows the client's requests.
abbrev pub Sends : (P : Platform) → Rule P → Client → Type 0
Sends P Q c = (req : HttpRequest) → is_from c req ≡ true → Only Q (call (sent req) (P.send req))

module _ (P : Platform) (Q : Rule P) where
  pub oauth2_result-Only : (r : Reply _) → Only {P = P} Q (oauth2_result r)
  unfolding oauth2_result
  oauth2_result-Only r =
      Only-Option Q r.response _ _
        (λ resp.
          Only-if Q _ _ _ (Only-pure Q _)
            (Only-Option Q r.error _ _ (λ e. Only-pure Q _) (Only-pure Q _)))
        (Only-panic Q _ _)

  pub saml_result-Only : (r : Reply _) → Only {P = P} Q (saml_result r)
  unfolding saml_result
  saml_result-Only r =
      Only-Option Q r.error _ _ (λ e. Only-pure Q _)
        (Only-Option Q r.out.body.response.return _ _
          (λ _. Only-bind Q _ _ (Only-lift Q _) (λ _. Only-pure Q _)) (Only-pure Q _))

  pub application_result-Only : (r : Reply _) → Only {P = P} Q (application_result r)
  unfolding application_result
  application_result-Only r =
      Only-Option Q r.error _ _ (λ e. Only-pure Q _)
        (Only-bind Q _ _ (Only-lift Q _) (λ _. Only-pure Q _))

  pub no_applications-Only : (fs : Fields) → Only {P = P} Q (no_applications fs)
  unfolding no_applications get
  no_applications-Only fs = go (get "applications" fs)
    where
      go :
          (j : Option Json)
          → Only {P = P} {A = Bool} Q (elim j [
            | some (arr nil) ↦ pure true
            | some (arr (cons v vs)) ↦ pure false
            | _ ↦ panic type_assertion
          ])
      go (some (arr nil)) = Only-pure Q _
      go (some (arr (cons v vs))) = Only-pure Q _
      go _ = Only-panic Q _ _

module _ (P : Platform) (Q : Rule P) (c : Client) (sends : Sends P Q c) where
  do_request-Only :
      (method path : String) (body : Option Payload) (opts : RequestOptions)
      → Only Q (do_request P c method path body opts)
  unfolding do_request new_request
  do_request-Only method path body opts =
      let req = new_request c method path body opts in
      sends req (rw (eq_refl c.username, eq_refl c.password) refl)

  do_json-Only :
      {R : Type 0} (method path : String) (body : Option Payload)
      (decode : Option (String → Result R)) (zero : R)
      → Only Q (do_json P c method path body decode zero)
  unfolding do_json
  do_json-Only method path body decode zero =
      Only-bind Q _ _ (do_request-Only method path body _) (λ r. Only-pure Q _)

  do_soap-Only :
      {R : Type 0} (action path : String) (body : Payload) (decode : Option (String → Result R))
      (zero : R)
      → Only Q (do_soap P c action path body decode zero)
  unfolding do_soap
  do_soap-Only action path body decode zero =
      Only-bind Q _ _ (do_request-Only "POST" path (some body) _) (λ r. Only-pure Q _)

  command-Only : (action path : String) (body : Payload) → Only Q (command P c action path body)
  unfolding command
  command-Only action path body =
      Only-bind Q _ _ (do_soap-Only action path body none tt) (λ r. Only-pure Q _)

  pub get_application_oauth2_config-Only :
      (name : String) → Only Q (get_application_oauth2_config P c name)
  unfolding get_application_oauth2_config
  get_application_oauth2_config-Only name =
      Only-bind Q _ _ (Only-bind Q _ _ (do_request-Only _ _ _ _) (λ _. Only-pure Q _))
        (oauth2_result-Only P Q)

  pub create_application_oauth2_config-Only :
      (name : String) (cfg : OAuth2Config) → Only Q (create_application_oauth2_config P c name cfg)
  unfolding create_application_oauth2_config
  create_application_oauth2_config-Only name cfg = command-Only _ _ _

  pub update_application_oauth2_config-Only :
      (name : String) (cfg : OAuth2Config) → Only Q (update_application_oauth2_config P c name cfg)
  unfolding update_application_oauth2_config
  update_application_oauth2_config-Only name cfg = command-Only _ _ _

  pub get_application_saml_config-Only :
      (issuer : String) → Only Q (get_application_saml_config P c issuer)
  unfolding get_application_saml_config
  get_application_saml_config-Only issuer =
      Only-bind Q _ _ (Only-bind Q _ _ (do_request-Only _ _ _ _) (λ _. Only-pure Q _))
        (saml_result-Only P Q)

  pub create_saml_application-Only : (cfg : SamlConfig) → Only Q (create_saml_application P c cfg)
  unfolding create_saml_application
  create_saml_application-Only cfg = command-Only _ _ _

  pub delete_application-Only : (name : String) → Only Q (delete_application P c name)
  unfolding delete_application
  delete_application-Only name = command-Only _ _ _

  pub update_saml_application-Only : (cfg : SamlConfig) → Only Q (update_saml_application P c cfg)
  unfolding update_saml_application
  update_saml_application-Only cfg =
      Only-bind Q _ _ (delete_application-Only _)
        (λ e. Only-Option Q e _ _ (λ e. Only-pure Q _) (create_saml_application-Only cfg))

  pub create_application-Only : (a : Application) → Only Q (create_application P c a)
  unfolding create_application
  create_application-Only a = command-Only _ _ _

  pub update_application-Only : (a : Application) → Only Q (update_application P c a)
  unfolding update_application
  update_application-Only a = command-Only _ _ _

  fetch_application-Only : (name : String) → Only Q (fetch_application P c name)
  unfolding fetch_application
  fetch_application-Only name =
      Only-bind Q _ _ (Only-bind Q _ _ (do_request-Only _ _ _ _) (λ _. Only-pure Q _))
        (application_result-Only P Q)

  pub get_application_by_name-Only : (name : String) → Only Q (get_application_by_name P c name)
  unfolding get_application_by_name
  get_application_by_name-Only name =
      Only-bind Q _ _ (Only-bind Q _ _ (do_request-Only _ _ _ _) (λ _. Only-pure Q _)) (λ r.
        Only-Option Q r.error _ _ (λ e. Only-pure Q _)
          (Only-bind Q _ _ (no_applications-Only P Q r.out)
            (λ b. Only-if Q _ _ _ (Only-pure Q _) (fetch_application-Only name))))

  get_user_info-Only : (name : String) → Only Q (get_user_info P c name)
  unfolding get_user_info
  get_user_info-Only name =
      Only-bind Q _ _ (Only-bind Q _ _ (do_request-Only _ _ _ _) (λ _. Only-pure Q _))
        (λ _. Only-pure Q _)

  patch_group-Only : (g u i : String) → Only Q (patch_group P c g u i)
  unfolding patch_group
  patch_group-Only g u i = Only-if Q _ _ _ (Only-pure Q _) (
      Only-bind Q _ _ (Only-bind Q _ _ (do_request-Only _ _ _ _) (λ _. Only-pure Q _))
        (λ _. Only-pure Q _))

  pub join_admin_to_group-Only : (group_id : String) → Only Q (join_admin_to_group P c group_id)
  unfolding join_admin_to_group join_user_to_group
  join_admin_to_group-Only group_id = Only-bind Q _ _ (get_user_info-Only _) (λ u.
      Only-Result Q u _ _ (λ e. Only-pure Q (some ("failed to decode scim response: " <> e)))
        (λ v. patch_group-Only group_id v.0 v.1))

  pub get_admin_group_membership-Only :
      (name : String) → Only Q (get_admin_group_membership P c name)
  unfolding get_admin_group_membership get_group_info
  get_admin_group_membership-Only name =
      Only-bind Q _ _
        (Only-bind Q _ _ (Only-bind Q _ _ (do_request-Only _ _ _ _) (λ _. Only-pure Q _))
          (λ _. Only-pure Q _))
        (λ _. Only-pure Q _)

module _ (P : Platform) (Q : Rule P) where
  pub check_ping-Only :
      {R : Type 0} (e : Option String) (p : Option Response) (o : R)
      → Only {P = P} Q (check_ping (record { response = p; error = e; out = o }))
  unfolding check_ping
  check_ping-Only (some e) p o = Only-pure Q _
  check_ping-Only none none o = Only-panic Q _ _
  check_ping-Only none (some p) o =
      Only-if Q (nat_eq p.status_code 401) _ _ (Only-pure Q (err "invalid credentials (401)")) (
        Only-if Q (nat_eq p.status_code 200) _ _ (Only-pure Q (ok tt))
          (Only-pure Q (err ("unexpected status: " <> show_nat p.status_code))))
