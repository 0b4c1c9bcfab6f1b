-- ===== src/Controller/Secrets.antt =====
-- internal/controller/wso2sp_controller.go: the secret with the inbound credentials of an application.
pub mod Laws
use wso2is_operator.Base.{
  String, ◌<>◌, Bool, true, false, not, List, [], ◌∷◌, Option, none, some, ◌==◌, ◌||◌, filter,
  if◌then◌else◌,
}
use wso2is_operator.Base.Result.{Result, ok, err}
use wso2is_operator.Api.Meta.{get_text}
use wso2is_operator.Api.Sp.{Wso2Sp}
use wso2is_operator.Wso2.App.{
  Application, OAuth2Config, SamlConfig, zero_oauth2_config, zero_saml_config,
}
use wso2is_operator.System.Kube.{ObjectKey, Secret, Lookup, found, not_found, failed}
use wso2is_operator.System.Platform.{
  Platform, M, created_secret, updated_secret, call, read, pure, ◌>>=◌,
}

-- A Go `map[string]string`, with one entry for each key.
abbrev pub Texts : Type 0
Texts = List (String × String)

-- `m[k] = v`
unfoldable pub insert : String → String → Texts → Texts
insert k v [] = (k, v) ∷ []
insert k v ((j, w) ∷ m) = if j == k then (k, v) ∷ m else (j, w) ∷ insert k v m

-- `maps.Copy`
unfoldable pub copy_into : Texts → Texts → Texts
unfolding insert
copy_into m [] = m
copy_into m ((k, v) ∷ kv) = copy_into (insert k v m) kv

abbrev pub is_filled : String × String → Bool
is_filled (k, v) = not (k == "" || v == "")

abbrev texts_of : Option Texts → Texts
texts_of none = []
texts_of (some m) = m

abbrev pub secret_key : Wso2Sp → ObjectKey
secret_key sp = record { namespace = sp.meta.namespace; name = sp.meta.name <> "-inbound" }

abbrev pub new_secret : Wso2Sp → Texts → Secret
new_secret sp kv = record {
  key = secret_key sp;
  string_data = some kv;
  contents = none;
  owner = none;
}

abbrev pub merged : Secret → Texts → Secret
merged sec kv = record sec { string_data = some (copy_into (texts_of sec.string_data) kv) }

abbrev pub with_oauth2 : Application → Texts → Application
with_oauth2 a d = record a {
  oauth2 = some (record zero_oauth2_config {
    oauth_consumer_key = get_text "client_id" d;
    oauth_consumer_secret = get_text "client_secret" d;
  });
}

abbrev pub with_saml : Application → Texts → Application
with_saml a d = record a {
  saml = some (record zero_saml_config {
    issuer = get_text "saml_issuer" d;
    attribute_consuming_service_index = get_text "saml_attrConsumingServiceIndex" d;
  });
}

-- The contents of the secret, if there is one and it has contents.
abbrev secret_contents : Lookup Secret → Result (Option Texts)
secret_contents (found sec) = ok sec.contents
secret_contents (not_found e) = ok none
secret_contents (failed e) = err e

abbrev pub put_contents :
    (Application → Texts → Application) → Application → Result (Option Texts) → Result Application
put_contents put a (err e) = err ("oauth2 secret: " <> e)
put_contents put a (ok none) = ok a
put_contents put a (ok (some d)) = ok (put a d)

abbrev pub given : {A : Type 0} → Option A → Bool
given none = false
given (some _) = true

module _ (P : Platform) where
  unfoldable pub create_inbound_secret : Wso2Sp → Texts → M P (Option String)
  create_inbound_secret sp kv = elim (P.set_controller_reference sp (new_secret sp kv)) [
    | err e ↦ pure (some e)
    | ok sec ↦ call (created_secret sec) (P.create_secret sec)
  ]

  -- The part of `upsertApplicationSecret` behind the test for an empty map.
  unfoldable pub write_secret : Wso2Sp → Texts → M P (Option String)
  unfolding create_inbound_secret
  write_secret sp kv = do
    r ← read (P.get_secret (secret_key sp))
    elim r [
      | not_found e ↦ create_inbound_secret sp kv
      | failed e ↦ pure (some e)
      | found sec ↦ call (updated_secret (merged sec kv)) (P.update_secret (merged sec kv))
    ]

  unfoldable pub upsert_filled : Wso2Sp → Texts → M P (Option String)
  unfolding write_secret
  upsert_filled sp [] = pure none
  upsert_filled sp (e ∷ kv) = write_secret sp (e ∷ kv)

  unfoldable pub upsert_application_secret : Wso2Sp → Texts → M P (Option String)
  unfolding upsert_filled filter
  upsert_application_secret sp kv = upsert_filled sp (filter is_filled kv)

  -- One of the two halves of `populateInboundSecrets`.
  unfoldable pub populate :
      Wso2Sp → Bool → (Application → Texts → Application) → Application → M P (Result Application)
  populate sp wanted put desired = if not wanted then pure (ok desired) else do
    r ← read (P.get_secret (secret_key sp))
    pure (put_contents put desired (secret_contents r))

  unfoldable pub populate_inbound_secrets : Wso2Sp → Application → M P (Result Application)
  unfolding populate
  populate_inbound_secrets sp desired = do
    a ← populate sp (given sp.spec.oauth2) with_oauth2 desired
    elim a [ err e ↦ pure (err e) | ok a' ↦ populate sp (given sp.spec.saml) with_saml a' ]
