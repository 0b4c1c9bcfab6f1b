-- ===== src/Controller/Liveness/Client.antt =====
-- The client's operations that read nothing but an outcome return, whatever the server answers.
use wso2is_operator.Base.{String, ◌<>◌, Option, none, some}
use wso2is_operator.Base.Result.{Result}
use wso2is_operator.System.Http.{Payload, RequestOptions}
use wso2is_operator.System.Platform.{Platform}
use wso2is_operator.System.Ends.{
  Ends, Anything, Ends-pure, Ends-call, Ends-bind, Ends-if, Ends-Option, Ends-Result,
}
use wso2is_operator.Wso2.App.{OAuth2Config, SamlConfig, Application}
use wso2is_operator.Wso2.Client.Transport.{
  Client, Reply, new_request, json_request, soap_request, finish, do_request, do_json, do_soap,
}
use wso2is_operator.Wso2.Client.Scim.{
  get_user_info, patch_group, join_user_to_group, join_admin_to_group, get_group_info,
  get_admin_group_membership,
}
use wso2is_operator.Wso2.Client.Soap.{
  command, create_application_oauth2_config, update_application_oauth2_config,
  create_saml_application, update_saml_application, delete_application, create_application,
  update_application,
}

module _ (P : Platform) (c : Client) where
  do_request-Ends :
      (method path : String) (body : Option Payload) (opts : RequestOptions)
      → Ends Anything (do_request P c method path body opts)
  unfolding do_request
  do_request-Ends method path body opts = Ends-call Anything _ _ (λ _. tt)

  pub do_json-Ends :
      {R : Type 0} (Q : Reply R → Type 0) (method path : String) (body : Option Payload)
      (decode : Option (String → Result R)) (zero : R)
      → ((w : P.State)
          → Q (finish decode zero (P.send (new_request c method path body json_request) w).0))
      → Ends Q (do_json P c method path body decode zero)
  unfolding do_json do_request
  do_json-Ends Q method path body decode zero h =
      Ends-bind _ _ (Ends-call (λ r. Q (finish decode zero r)) _ _ h) (λ r q. Ends-pure _ q)

  pub do_soap-Ends :
      {R : Type 0} (Q : Reply R → Type 0) (action path : String) (body : Payload)
      (decode : Option (String → Result R)) (zero : R)
      → ((w : P.State)
          → Q (
              finish decode zero
                (P.send (new_request c "POST" path (some body) (soap_request action)) w).0))
      → Ends Q (do_soap P c action path body decode zero)
  unfolding do_soap do_request
  do_soap-Ends Q action path body decode zero h =
      Ends-bind _ _ (Ends-call (λ r. Q (finish decode zero r)) _ _ h) (λ r q. Ends-pure _ q)

  command-Ends :
      (action path : String) (body : Payload) → Ends Anything (command P c action path body)
  unfolding command
  command-Ends action path body =
      Ends-bind _ _ (do_soap-Ends Anything action path body none tt (λ _. tt))
        (λ r _. Ends-pure _ tt)

  pub create_application_oauth2_config-Ends :
      (name : String) (cfg : OAuth2Config)
      → Ends Anything (create_application_oauth2_config P c name cfg)
  unfolding create_application_oauth2_config
  create_application_oauth2_config-Ends name cfg = command-Ends _ _ _

  pub update_application_oauth2_config-Ends :
      (name : String) (cfg : OAuth2Config)
      → Ends Anything (update_application_oauth2_config P c name cfg)
  unfolding update_application_oauth2_config
  update_application_oauth2_config-Ends name cfg = command-Ends _ _ _

  pub create_saml_application-Ends :
      (cfg : SamlConfig) → Ends Anything (create_saml_application P c cfg)
  unfolding create_saml_application
  create_saml_application-Ends cfg = command-Ends _ _ _

  pub update_saml_application-Ends :
      (cfg : SamlConfig) → Ends Anything (update_saml_application P c cfg)
  unfolding update_saml_application delete_application
  update_saml_application-Ends cfg =
      Ends-bind _ _ (command-Ends _ _ _)
        (λ e _. Ends-Option e _ _ (λ e. Ends-pure _ tt) (create_saml_application-Ends cfg))

  pub create_application-Ends : (a : Application) → Ends Anything (create_application P c a)
  unfolding create_application
  create_application-Ends a = command-Ends _ _ _

  pub update_application-Ends : (a : Application) → Ends Anything (update_application P c a)
  unfolding update_application
  update_application-Ends a = command-Ends _ _ _

  get_user_info-Ends : (name : String) → Ends Anything (get_user_info P c name)
  unfolding get_user_info
  get_user_info-Ends name =
      Ends-bind {Q = Anything} _ _ (Ends-bind _ _ (do_request-Ends _ _ _ _) (λ _ _. Ends-pure _ tt))
        (λ _ _. Ends-pure _ tt)

  patch_group-Ends : (g u i : String) → Ends Anything (patch_group P c g u i)
  unfolding patch_group
  patch_group-Ends g u i = Ends-if _ _ _ (Ends-pure _ tt) (
      Ends-bind {Q = Anything} _ _ (Ends-bind _ _ (do_request-Ends _ _ _ _) (λ _ _. Ends-pure _ tt))
        (λ _ _. Ends-pure _ tt))

  pub join_admin_to_group-Ends :
      (group_id : String) → Ends Anything (join_admin_to_group P c group_id)
  unfolding join_admin_to_group join_user_to_group
  join_admin_to_group-Ends group_id = Ends-bind _ _ (get_user_info-Ends _) (λ u _.
      Ends-Result u _ _ (λ e. Ends-pure (some ("failed to decode scim response: " <> e)) tt)
        (λ v. patch_group-Ends group_id v.0 v.1))

  pub get_admin_group_membership-Ends :
      (name : String) → Ends Anything (get_admin_group_membership P c name)
  unfolding get_admin_group_membership get_group_info
  get_admin_group_membership-Ends name =
      Ends-bind {Q = Anything} _ _
        (Ends-bind {Q = Anything} _ _
          (Ends-bind _ _ (do_request-Ends _ _ _ _) (λ _ _. Ends-pure _ tt)) (λ _ _. Ends-pure _ tt))
        (λ _ _. Ends-pure _ tt)
