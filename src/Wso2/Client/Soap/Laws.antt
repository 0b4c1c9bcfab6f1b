-- ===== src/Wso2/Client/Soap/Laws.antt =====
-- What the SOAP operations do with the reply.
use wso2is_operator.Base.{String, ◌∷◌, none, some, ◌≡◌, refl, Option-cases, ◌⊎◌, inl, inr}
use wso2is_operator.Base.Exit.{done, panicked, nil_dereference}
use wso2is_operator.Base.Result.{ok, err}
use wso2is_operator.System.Http
use wso2is_operator.System.Http.{HttpRequest, Response, Payload}
use wso2is_operator.System.Platform.{Platform, System, sent, pure, panic, call, ◌>>=◌}
use wso2is_operator.Wso2.App.{SamlConfig}
use wso2is_operator.Wso2.Build.Application.{build_delete_application}
use wso2is_operator.Wso2.Build.Oauth.{build_get_oauth_application}
use wso2is_operator.Wso2.Build.Saml.{build_create_saml_application}
use wso2is_operator.Wso2.Client.Transport.{Client, finish, new_request, soap_request}
use wso2is_operator.Wso2.Client.Soap.{
  oauth_endpoint, application_endpoint, saml_endpoint, get_application_oauth2_config,
  update_saml_application, delete_application, create_saml_application,
}

abbrev pub soap_post : Client → String → String → Payload → HttpRequest
unfolding new_request soap_request
soap_post c action path body = new_request c "POST" path (some body) (soap_request action)

abbrev pub oauth_query : Client → String → HttpRequest
oauth_query c name =
    soap_post c "urn:getOAuthApplicationDataByAppName" oauth_endpoint
      (Http.get_oauth (build_get_oauth_application name))

-- If the exchange fails, reading the OAuth configuration panics: it looks at the response's status
-- before it looks at the error, and there is no response.
pub get_application_oauth2_config-panic :
    (P : Platform) (c : Client) (name : String) (s : System P) (e : String)
    → (P.send (oauth_query c name) s.world).0 ≡ err e
    → (get_application_oauth2_config P c name s).0 ≡ panicked nil_dereference
unfolding get_application_oauth2_config ◌>>=◌ pure panic call
get_application_oauth2_config-panic P c name s e h = rw h refl

-- A reply with status 500, whatever its cause, counts as a missing OAuth configuration.
pub get_application_oauth2_config-missing :
    (P : Platform) (c : Client) (name : String) (s : System P) (resp : Response)
    → (P.send (oauth_query c name) s.world).0 ≡ ok resp
    → resp.status_code ≡ 500
    → (get_application_oauth2_config P c name s).0 ≡ done (ok none)
unfolding get_application_oauth2_config ◌>>=◌ pure panic call
get_application_oauth2_config-missing P c name s resp h code = rw (h, code) refl

abbrev pub delete_by_issuer : Client → SamlConfig → HttpRequest
delete_by_issuer c cfg =
    soap_post c "urn:deleteApplication" application_endpoint
      (Http.delete_application (build_delete_application cfg.issuer))

abbrev pub create_request : Client → SamlConfig → HttpRequest
create_request c cfg =
    soap_post c "urn:addRPServiceProvider" saml_endpoint
      (Http.create_saml (build_create_saml_application cfg))

-- The update of a SAML configuration asks the server to delete the application that has the
-- issuer's name, and after that it makes at most one request, which creates the configuration. It
-- never asks to remove the SAML configuration itself.
pub update_saml_application-calls :
    (P : Platform) (c : Client) (cfg : SamlConfig) (s : System P)
    → ((update_saml_application P c cfg s).1.calls ≡ sent (delete_by_issuer c cfg) ∷ s.calls)
      ⊎ ((update_saml_application P c cfg s).1.calls
          ≡ sent (create_request c cfg) ∷ sent (delete_by_issuer c cfg) ∷ s.calls)
unfolding update_saml_application delete_application create_saml_application ◌>>=◌ pure call
update_saml_application-calls P c cfg s =
    elim (Option-cases
      (finish {R = Unit {0}} none tt (P.send (delete_by_issuer c cfg) s.world).0).error) [
        | inl e ↦ rw e (inr refl)
        | inr e ↦ rw (e.1) (inl refl)
      ]
