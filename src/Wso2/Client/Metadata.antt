-- ===== src/Wso2/Client/Metadata.antt =====
-- internal/wso2/saml.go: `Fetch`, `FetchIDPMetadata` and `fetchAndParse`.
use Prim.Native.String.{len, slice}
use wso2is_operator.Base.{String, ◌<>◌, none, some, ltb, if◌then◌else◌}
use wso2is_operator.Base.Result.{Result, ok, err}
use wso2is_operator.Wso2.App.{SamlConfig}
use wso2is_operator.Wso2.Metadata.Descriptor.{EntityDescriptor}
use wso2is_operator.Wso2.Metadata.Config.{
  sp_config_from_descriptor, idp_config_from_descriptor, parse_xml,
}
use wso2is_operator.System.Http.{Fetched, bad_url, unreachable, bad_status, unreadable, fetched}
use wso2is_operator.System.Platform.{Platform, M, fetched_url, call, pure, ◌>>=◌}

-- `io.LimitReader(resp.Body, 4<<20)`
abbrev limited : String → String
limited body = if ltb 4194304 (len body) then slice body 0 4194304 else body

module _ (P : Platform) where
  unfoldable pub parse_fetched : Fetched → Result EntityDescriptor
  unfolding parse_xml
  parse_fetched (bad_url e) = err ("build request: " <> e)
  parse_fetched (unreachable e) = err ("fetch metadata: " <> e)
  parse_fetched (bad_status s) = err ("metadata endpoint returned " <> s)
  parse_fetched (unreadable e) = err ("read metadata body: " <> e)
  parse_fetched (fetched body) = parse_xml P.unmarshal (limited body)

  unfoldable pub fetch_and_parse : String → M P (Result EntityDescriptor)
  unfolding parse_fetched
  fetch_and_parse url = do f ← call (fetched_url url) (P.fetch url); pure (parse_fetched f)

  unfoldable pub sp_metadata : String → Result EntityDescriptor → Result SamlConfig
  sp_metadata url (err e) = err e
  sp_metadata url (ok ed) = elim ed.spsso_descriptor [
    | none ↦ err ("metadata at " <> (url <> " contains no SPSSODescriptor"))
    | some sp ↦ ok (sp_config_from_descriptor ed.entity_id sp)
  ]

  unfoldable pub idp_metadata : String → Result EntityDescriptor → Result SamlConfig
  idp_metadata url (err e) = err e
  idp_metadata url (ok ed) = elim ed.idpsso_descriptor [
    | none ↦ err ("metadata at " <> (url <> " contains no IDPSSODescriptor"))
    | some idp ↦ ok (idp_config_from_descriptor ed.entity_id idp)
  ]

  unfoldable pub fetch_sp_metadata : String → M P (Result SamlConfig)
  unfolding fetch_and_parse sp_metadata
  fetch_sp_metadata url = do ed ← fetch_and_parse url; pure (sp_metadata url ed)

  unfoldable pub fetch_idp_metadata : String → M P (Result SamlConfig)
  unfolding fetch_and_parse idp_metadata
  fetch_idp_metadata url = do ed ← fetch_and_parse url; pure (idp_metadata url ed)
