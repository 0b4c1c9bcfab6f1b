-- ===== src/Wso2/Client/Transport.antt =====
-- internal/wso2/client.go: `NewClient`, `doRequest`, `doJSON` and `doSOAP`.
use wso2is_operator.Base.{
  ℕ, String, ◌<>◌, Bool, true, false, Option, none, some, ltb, leb, ◌==◌, ◌||◌, if◌then◌else◌,
}
use wso2is_operator.Base.Text.{show_nat}
use wso2is_operator.Base.Result.{Result, ok, err}
use wso2is_operator.System.Http.{Payload, RequestOptions, HttpRequest, Response}
use wso2is_operator.System.Platform.{Platform, M, sent, call, pure, ◌>>=◌}

pub record Client : Type 0 where
  pub base_url : String
  pub username : String
  pub password : String
  pub tenant : String
  pub skip_tls : Bool

unfoldable pub new_client : String → String → String → String → Bool → Client
new_client base_url username password tenant skip_tls = record {
  base_url = base_url;
  username = username;
  password = password;
  tenant = tenant;
  skip_tls = skip_tls;
}

abbrev pub content_type_json : String
content_type_json = "application/json"

abbrev pub content_type_soap : String
content_type_soap = "text/xml; charset=utf-8"

unfoldable pub json_request : RequestOptions
json_request = record {
  content_type = content_type_json;
  accept = "application/json";
  soap_action = "";
}

unfoldable pub soap_request : String → RequestOptions
soap_request action = record {
  content_type = content_type_soap;
  accept = "text/xml";
  soap_action = action;
}

unfoldable pub new_request :
    Client → String → String → Option Payload → RequestOptions → HttpRequest
new_request c method path body opts = record {
  method = method;
  url = c.base_url <> path;
  body = body;
  username = c.username;
  password = c.password;
  skip_tls = c.skip_tls;
  options = opts;
}

-- What `doJSON` and `doSOAP` return, with the variable that they decode into.
pub record Reply (R : Type 0) : Type 0 where
  pub response : Option Response
  pub error : Option String
  pub out : R

-- A status from 200 to 299.
abbrev pub is_success : ℕ → Bool
is_success code = if ltb code 200 || leb 300 code then false else true

unfoldable pub http_error : Response → String
http_error resp = "http error " <> (show_nat resp.status_code <> (": " <> resp.body))

abbrev decoded : {R : Type 0} → Response → R → Result R → Reply R
decoded resp zero (err e) = record { response = none; error = some e; out = zero }
decoded resp zero (ok r) = record { response = some resp; error = none; out = r }

-- The variable `respBody` is nil where there is no decoder.
abbrev decode_body : {R : Type 0} → Option (String → Result R) → R → Response → Reply R
decode_body none zero resp = record { response = some resp; error = none; out = zero }
decode_body (some decode) zero resp =
    if resp.body == ""
    then record { response = some resp; error = none; out = zero }
    else decoded resp zero (decode resp.body)

-- The part that `doJSON` and `doSOAP` share.
unfoldable pub finish : {R : Type 0} → Option (String → Result R) → R → Result Response → Reply R
finish decode zero (err e) = record { response = none; error = some e; out = zero }
finish decode zero (ok resp) =
    if is_success resp.status_code
    then decode_body decode zero resp
    else record { response = some resp; error = some (http_error resp); out = zero }

module _ (P : Platform) where
  unfoldable pub do_request :
      Client → String → String → Option Payload → RequestOptions → M P (Result Response)
  unfolding new_request
  do_request c method path body opts =
      let req = new_request c method path body opts in call (sent req) (P.send req)

  unfoldable pub do_json :
      {R : Type 0}
      → Client
      → String
      → String
      → Option Payload
      → Option (String → Result R)
      → R
      → M P (Reply R)
  unfolding do_request json_request finish
  do_json c method path body decode zero = do
    r ← do_request c method path body json_request
    pure (finish decode zero r)

  unfoldable pub do_soap :
      {R : Type 0}
      → Client
      → String
      → String
      → Payload
      → Option (String → Result R)
      → R
      → M P (Reply R)
  unfolding do_request soap_request finish
  do_soap c action path body decode zero = do
    r ← do_request c "POST" path (some body) (soap_request action)
    pure (finish decode zero r)
