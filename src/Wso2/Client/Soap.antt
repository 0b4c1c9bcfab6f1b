-- ===== src/Wso2/Client/Soap.antt =====
-- internal/wso2/client.go: the SOAP calls, and `GetApplicationByName`.
pub mod Laws
use wso2is_operator.Base.{
  ℕ, String, ◌<>◌, Bool, true, false, List, [], ◌∷◌, Option, none, some, ◌==◌, nat_eq, pos,
  if◌then◌else◌,
}
use wso2is_operator.Base.Exit.{nil_dereference, type_assertion}
use wso2is_operator.Base.Result.{Result, ok, err}
use wso2is_operator.Wso2.App.{OAuth2Config, SamlConfig, Application}
use wso2is_operator.Wso2.Json.{Json, arr, Items, nil, cons, Fields, end, get}
use wso2is_operator.Wso2.Soap.Envelope.{ResponseEnvelope}
use wso2is_operator.Wso2.Soap.ProviderReply.{GetApplicationResponseBody}
use wso2is_operator.Wso2.Soap.Oauth.{GetOAuthApplicationDataByAppNameResponseBody}
use wso2is_operator.Wso2.Soap.Saml.{GetSamlSpResponseBody}
use wso2is_operator.Wso2.Build.Application.{
  build_get_application, build_create_application, build_update_application,
  build_delete_application,
}
use wso2is_operator.Wso2.Build.Oauth.{
  build_get_oauth_application, build_create_oauth_application, build_update_oauth_application,
}
use wso2is_operator.Wso2.Build.Saml.{
  build_get_saml_application, build_create_saml_application, build_remove_saml_application,
}
use wso2is_operator.Wso2.Map.Application.{map_get_application}
use wso2is_operator.Wso2.Map.Oauth.{map_get_oauth_application}
use wso2is_operator.Wso2.Map.Saml.{map_saml_application}
use wso2is_operator.System.Http
use wso2is_operator.System.Http.{Payload, Response}
use wso2is_operator.System.Platform.{Platform, M, pure, panic, lift, ◌>>=◌}
use wso2is_operator.Wso2.Client.Transport.{Client, Reply, do_json, do_soap}

abbrev pub application_endpoint : String
application_endpoint = "/services/IdentityApplicationManagementService?wsdl"

abbrev pub oauth_endpoint : String
oauth_endpoint = "/services/OAuthAdminService?wsdl"

abbrev pub saml_endpoint : String
saml_endpoint = "/services/IdentitySAMLSSOConfigService?wsdl"

-- The replies before anything is decoded into them.
abbrev pub zero_oauth_reply : ResponseEnvelope GetOAuthApplicationDataByAppNameResponseBody
zero_oauth_reply = record {
  body = record {
    get_oauth_application_data_by_app_name_response = record {
      oauth_application = record {
        oauth_version = "";
        application_access_token_expiry_time = pos 0;
        application_name = "";
        audiences = [];
        bypass_client_credentials = false;
        callback_url = "";
        grant_types = "";
        id_token_expiry_time = pos 0;
        oauth_consumer_key = "";
        oauth_consumer_secret = "";
        pkce_mandatory = false;
        pkce_support_plain = false;
        refresh_token_expiry_time = pos 0;
        scope_validators = [];
        token_binding_type = "";
        token_type = "";
        user_access_token_expiry_time = pos 0;
        username = "";
      };
    };
  };
}

abbrev pub zero_saml_reply : ResponseEnvelope GetSamlSpResponseBody
zero_saml_reply = record { body = record { response = record { return = none } } }

abbrev pub zero_application_reply : ResponseEnvelope GetApplicationResponseBody
zero_application_reply = record {
  body = record {
    get_application_response = record {
      service_provider = record {
        application_id = pos 0;
        application_resource_id = "";
        application_name = "";
        description = "";
        claim_config = none;
        inbound_authentication_config = none;
        local_and_outbound_authentication_config = none;
      };
    };
  };
}

-- The results of the calls return `(*T, error)`: a nil pointer is `none`. An error keeps its text.
-- `GetApplicationOAuth2Config` looks at the status of the response before it looks at the error.
unfoldable pub oauth2_result :
    {P : Platform}
    → Reply (ResponseEnvelope GetOAuthApplicationDataByAppNameResponseBody)
    → M P (Result (Option OAuth2Config))
unfolding map_get_oauth_application
oauth2_result r = elim r.response [
  | none ↦ panic nil_dereference
  | some resp ↦ if nat_eq resp.status_code 500 then pure (ok none) else elim r.error [
    | some e ↦ pure (err e)
    | none ↦ pure (ok (some (map_get_oauth_application r.out)))
  ]
]

unfoldable pub saml_result :
    {P : Platform}
    → Reply (ResponseEnvelope GetSamlSpResponseBody)
    → M P (Result (Option SamlConfig))
unfolding map_saml_application
saml_result r = elim r.error [
  | some e ↦ pure (err e)
  | none ↦ elim r.out.body.response.return [
    | none ↦ pure (ok none)
    | some _ ↦ do cfg ← lift (map_saml_application r.out); pure (ok (some cfg))
  ]
]

unfoldable pub application_result :
    {P : Platform}
    → Reply (ResponseEnvelope GetApplicationResponseBody)
    → M P (Result (Option Application))
unfolding map_get_application
application_result r = elim r.error [
  | some e ↦ pure (err e)
  | none ↦ do a ← lift (map_get_application r.out); pure (ok (some a))
]

-- Whether `respJSON["applications"].([]any)` is empty; it panics on anything but an array.
unfoldable pub no_applications : {P : Platform} → Fields → M P Bool
unfolding get
no_applications fs = elim (get "applications" fs) [
  | some (arr nil) ↦ pure true
  | some (arr (cons v vs)) ↦ pure false
  | _ ↦ panic type_assertion
]

module _ (P : Platform) where
  unfoldable pub get_application_oauth2_config :
      Client → String → M P (Result (Option OAuth2Config))
  unfolding do_soap oauth2_result
  get_application_oauth2_config c name = do
    r ←
        do_soap P c "urn:getOAuthApplicationDataByAppName" oauth_endpoint
          (Http.get_oauth (build_get_oauth_application name)) (some P.decode_oauth) zero_oauth_reply
    oauth2_result r

  -- A call whose reply is not decoded.
  unfoldable pub command : Client → String → String → Payload → M P (Option String)
  unfolding do_soap
  command c action path body = do r ← do_soap P c action path body none tt; pure r.error

  unfoldable pub create_application_oauth2_config :
      Client → String → OAuth2Config → M P (Option String)
  unfolding command
  create_application_oauth2_config c name cfg =
      command c "urn:updateApplication" oauth_endpoint
        (Http.register_oauth (build_create_oauth_application name cfg))

  unfoldable pub update_application_oauth2_config :
      Client → String → OAuth2Config → M P (Option String)
  unfolding command
  update_application_oauth2_config c name cfg =
      command c "urn:updateApplication" oauth_endpoint
        (Http.update_oauth (build_update_oauth_application name cfg))

  unfoldable pub get_application_saml_config : Client → String → M P (Result (Option SamlConfig))
  unfolding do_soap saml_result
  get_application_saml_config c issuer = do
    r ←
        do_soap P c "urn:getServiceProvider" saml_endpoint
          (Http.get_service_provider (build_get_saml_application issuer)) (some P.decode_saml)
          zero_saml_reply
    saml_result r

  unfoldable pub create_saml_application : Client → SamlConfig → M P (Option String)
  unfolding command
  create_saml_application c cfg =
      command c "urn:addRPServiceProvider" saml_endpoint
        (Http.create_saml (build_create_saml_application cfg))

  unfoldable pub remove_saml_application : Client → String → M P (Option String)
  unfolding command
  remove_saml_application c issuer =
      command c "urn:removeServiceProvider" saml_endpoint
        (Http.remove_saml (build_remove_saml_application issuer))

  unfoldable pub create_application : Client → Application → M P (Option String)
  unfolding command
  create_application c a =
      command c "urn:createApplication" application_endpoint
        (Http.create_application (build_create_application a))

  unfoldable pub update_application : Client → Application → M P (Option String)
  unfolding command
  update_application c a =
      command c "urn:updateApplication" application_endpoint
        (Http.update_application (build_update_application a))

  unfoldable pub delete_application : Client → String → M P (Option String)
  unfolding command
  delete_application c sp_name =
      command c "urn:deleteApplication" application_endpoint
        (Http.delete_application (build_delete_application sp_name))

  unfoldable pub update_saml_application : Client → SamlConfig → M P (Option String)
  unfolding delete_application create_saml_application
  update_saml_application c cfg = do
    e ← delete_application c cfg.issuer
    elim e [ some e ↦ pure (some e) | none ↦ create_saml_application c cfg ]

  -- The second half of `GetApplicationByName`.
  unfoldable pub fetch_application : Client → String → M P (Result (Option Application))
  unfolding do_soap application_result
  fetch_application c name = do
    r ←
        do_soap P c "urn:getApplication" application_endpoint
          (Http.get_application (build_get_application name)) (some P.decode_application)
          zero_application_reply
    application_result r

  unfoldable pub get_application_by_name : Client → String → M P (Result (Option Application))
  unfolding do_json fetch_application no_applications
  get_application_by_name c name = do
    r ←
        do_json P c "GET"
          ("/t/" <> (c.tenant <> ("/api/server/v1/applications?filter=name+eq+" <> name))) none
          (some P.decode_object) end
    elim r.error [
      | some e ↦ pure (err e)
      | none ↦ do
        empty ← no_applications r.out
        if empty then pure (ok none) else fetch_application c name
    ]
