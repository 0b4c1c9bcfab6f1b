-- ===== src/Controller/Liveness/Answers.antt =====
-- The form in which the server answers the requests that read something.
use wso2is_operator.Base.{String, some, ◌≡◌, ◌⊎◌}
use wso2is_operator.Base.Exit.{Returns}
use wso2is_operator.System.Http.{Response}
use wso2is_operator.System.Platform.{Platform}
use wso2is_operator.Wso2.Soap.Envelope.{ResponseEnvelope}
use wso2is_operator.Wso2.Soap.Saml.{SamlSsoServiceProviderDtoResponse, GetSamlSpResponseBody}
use wso2is_operator.Wso2.Json.{Items, Fields, end, arr, get}
use wso2is_operator.Wso2.Map.Application.{map_get_application}
use wso2is_operator.Wso2.Client.Transport.{Client, Reply, finish}
use wso2is_operator.Wso2.Client.Requests.{list_request, application_request, saml_request}
use wso2is_operator.Wso2.Client.Soap.Laws.{oauth_query}
use wso2is_operator.Wso2.Client.Soap.{zero_oauth_reply, zero_saml_reply, zero_application_reply}

-- The reply is an error or fits.
abbrev pub Fits : {R : Type 0} → (R → Type 0) → Reply R → Type 0
Fits F r = ((e : String) × (r.error ≡ some e)) ⊎ F r.out

abbrev pub HasArray : Fields → Type 0
HasArray fs = (vs : Items) × (get "applications" fs ≡ some (arr vs))

abbrev pub HasReturn : ResponseEnvelope GetSamlSpResponseBody → Type 0
HasReturn o = (d : SamlSsoServiceProviderDtoResponse) × (o.body.response.return ≡ some d)

-- What the client relies on: the list of applications is an array, an application can be mapped, the
-- SAML reply holds a configuration, if only an empty one, and the OAuth service gives a response that
-- can be decoded.
pub record Answers (P : Platform) (c : Client) : Type 0 where
  pub lists :
      (name : String) (w : P.State)
      → Fits HasArray (finish (some P.decode_object) end (P.send (list_request c name) w).0)
  pub describes :
      (name : String) (w : P.State)
      → Fits
          (λ o. Returns (map_get_application o))
          (finish
            (some P.decode_application)
            zero_application_reply
            (P.send (application_request c name) w).0)
  pub knows :
      (issuer : String) (w : P.State)
      → Fits HasReturn
          (finish (some P.decode_saml) zero_saml_reply (P.send (saml_request c issuer) w).0)
  pub responds :
      (name : String) (w : P.State)
      → (resp : Response) × ((finish
            (some P.decode_oauth)
            zero_oauth_reply
            (P.send (oauth_query c name) w).0).response
          ≡ some resp)
