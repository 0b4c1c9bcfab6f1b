-- ===== src/System/Platform.antt =====
-- The interface to the Kubernetes API server and the network, over an unknown state, and the monad
-- of code that uses it: state passing, Go panics, and a record of the calls that were made.
use wso2is_operator.Base.{ℤ, String, Bool, List, ◌∷◌, Option}
use wso2is_operator.Base.Exit.{Exit, done, panicked, Panic}
use wso2is_operator.Base.Result.{Result}
use wso2is_operator.Api.Sp.{Wso2Sp}
use wso2is_operator.Api.Instance.{Wso2IsInstance}
use wso2is_operator.Wso2.Scim.{ScimListResponse, ScimUser, ScimGroup}
use wso2is_operator.Wso2.Soap.Envelope.{ResponseEnvelope}
use wso2is_operator.Wso2.Soap.ProviderReply.{GetApplicationResponseBody}
use wso2is_operator.Wso2.Soap.Oauth.{GetOAuthApplicationDataByAppNameResponseBody}
use wso2is_operator.Wso2.Soap.Saml.{GetSamlSpResponseBody}
use wso2is_operator.Wso2.Metadata.Descriptor.{EntityDescriptor}
use wso2is_operator.Wso2.App.{Claim}
use wso2is_operator.Wso2.Json.{Json, Fields}
use wso2is_operator.System.Kube.{ObjectKey, Secret, ConfigMap, Lookup, Event}
use wso2is_operator.System.Http.{HttpRequest, Response, Fetched}

-- A write returns its error, if any, and the object as the client library leaves it.
pub record Platform : Type 1 where
  pub State : Type 0
  -- `httpClient.Do` and `io.ReadAll`, with the encoding of the body.
  pub send : HttpRequest → State → Result Response × State
  pub fetch : String → State → Fetched × State
  pub get_sp : ObjectKey → State → Lookup Wso2Sp × State
  pub get_instance : ObjectKey → State → Lookup Wso2IsInstance × State
  pub get_secret : ObjectKey → State → Lookup Secret × State
  pub get_config_map : ObjectKey → State → Lookup ConfigMap × State
  pub create_secret : Secret → State → Option String × State
  pub update_secret : Secret → State → Option String × State
  pub update_sp : Wso2Sp → State → (Option String × Wso2Sp) × State
  pub update_sp_status : Wso2Sp → State → (Option String × Wso2Sp) × State
  -- `client.MergeFrom(base)`
  pub patch_sp_status : Wso2Sp → Wso2Sp → State → (Option String × Wso2Sp) × State
  pub update_instance_status : Wso2IsInstance → State → (Option String × Wso2IsInstance) × State
  pub now : State → ℤ × State
  -- `controllerutil.SetControllerReference`
  pub set_controller_reference : Wso2Sp → Secret → Result Secret
  -- `controllerutil.ContainsFinalizer`, `AddFinalizer` and `RemoveFinalizer`.
  pub contains_finalizer : String → List String → Bool
  pub add_finalizer : String → List String → List String
  pub remove_finalizer : String → List String → List String
  -- `strconv.Quote`, and the decoders of `encoding/json` and `encoding/xml`.
  pub quote : String → String
  pub decode_object : String → Result Fields
  pub decode_users : String → Result (ScimListResponse ScimUser)
  pub decode_groups : String → Result (ScimListResponse ScimGroup)
  pub decode_application : String → Result (ResponseEnvelope GetApplicationResponseBody)
  pub decode_oauth : String → Result (ResponseEnvelope GetOAuthApplicationDataByAppNameResponseBody)
  pub decode_saml : String → Result (ResponseEnvelope GetSamlSpResponseBody)
  pub unmarshal : String → Result EntityDescriptor
  -- JSON text, SHA-256 and hexadecimal; `sort.Slice` on claims by URI.
  pub digest : Json → String
  pub sort_claims : List Claim → List Claim

-- A call that leaves the operator. Reads of the Kubernetes API are not recorded.
pub data Call : Type 0 where
  sent : HttpRequest → Call
  fetched_url : String → Call
  created_secret : Secret → Call
  updated_secret : Secret → Call
  updated_sp : Wso2Sp → Call
  updated_status : Wso2Sp → Call
  patched_status : Wso2Sp → Call
  updated_instance : Wso2IsInstance → Call
  recorded : Event → Call

-- The calls stand with the latest first.
pub record System (P : Platform) : Type 0 where
  pub world : P.State
  pub calls : List Call

abbrev pub M : Platform → Type 0 → Type 0
M P A = System P → Exit A × System P

module _ {P : Platform} where
  unfoldable pub pure : {A : Type 0} → A → M P A
  pure a s = (done a, s)

  unfoldable pub panic : {A : Type 0} → Panic → M P A
  panic p s = (panicked p, s)

  abbrev pub continue : {A B : Type 0} → Exit A → (A → M P B) → M P B
  continue (done a) f s = f a s
  continue (panicked p) f s = (panicked p, s)

  infixl 5 ◌>>=◌ ◌>>◌
  unfoldable pub ◌>>=◌ : {A B : Type 0} → M P A → (A → M P B) → M P B
  ◌>>=◌ m f s = let r = m s in continue r.0 f r.1

  unfoldable pub ◌>>◌ : {B : Type 0} → M P (Unit {0}) → M P B → M P B
  unfolding ◌>>=◌
  m >> k = m >>= λ _. k

  -- Code that may panic and makes no call.
  unfoldable pub lift : {A : Type 0} → Exit A → M P A
  lift e s = (e, s)

  -- A read.
  unfoldable pub read : {A : Type 0} → (P.State → A × P.State) → M P A
  read f s = let r = f s.world in (done r.0, record s { world = r.1 })

  -- A call that is recorded.
  unfoldable pub call : {A : Type 0} → Call → (P.State → A × P.State) → M P A
  call c f s = let r = f s.world in (done r.0, record { world = r.1; calls = c ∷ s.calls })

  unfoldable pub event : Event → M P (Unit {0})
  event e s = (done tt, record s { calls = recorded e ∷ s.calls })
