-- ===== src/Wso2/Metadata/Slo.antt =====
-- internal/wso2/saml.go: `parseSLOEndpoints`.
pub mod Laws
use wso2is_operator.Base.{String, Bool, true, false, List, [], ◌∷◌, not, ◌||◌, ◌==◌, if◌then◌else◌}
use wso2is_operator.Wso2.Metadata.Descriptor.{SloEndpoint}

abbrev pub binding_http_post : String
binding_http_post = "urn:oasis:names:tc:SAML:2.0:bindings:HTTP-POST"

abbrev pub binding_http_redirect : String
binding_http_redirect = "urn:oasis:names:tc:SAML:2.0:bindings:HTTP-Redirect"

abbrev pub binding_http_artifact : String
binding_http_artifact = "urn:oasis:names:tc:SAML:2.0:bindings:HTTP-Artifact"

abbrev pub binding_soap : String
binding_soap = "urn:oasis:names:tc:SAML:2.0:bindings:SOAP"

-- The results of `parseSLOEndpoints`, which are the variables of its loop.
pub record SloConfig : Type 0 where
  pub do_single_logout : Bool
  pub do_front_channel : Bool
  pub front_channel_binding : String
  pub request_url : String
  pub response_url : String

-- Where the endpoint wants logout responses.
abbrev pub response_of : SloEndpoint → String
response_of ep = if ep.response_location == "" then ep.location else ep.response_location

-- One round of the loop.
unfoldable pub slo_round : SloConfig → SloEndpoint → SloConfig
slo_round st ep =
    if ep.binding == binding_http_post || ep.binding == binding_http_redirect
    then if not st.do_front_channel || ep.binding == binding_http_post
      then record st {
        do_front_channel = true;
        front_channel_binding = ep.binding;
        request_url = ep.location;
        response_url = response_of ep;
      }
      else st
    else if ep.binding == binding_soap
    then if st.request_url == ""
      then record st { request_url = ep.location; response_url = ep.location }
      else st
    else st

unfoldable pub slo_loop : SloConfig → List SloEndpoint → SloConfig
unfolding slo_round
slo_loop st [] = st
slo_loop st (ep ∷ endpoints) = slo_loop (slo_round st ep) endpoints

abbrev pub no_slo : SloConfig
no_slo = record {
  do_single_logout = false;
  do_front_channel = false;
  front_channel_binding = "";
  request_url = "";
  response_url = "";
}

unfoldable pub parse_slo_endpoints : List SloEndpoint → SloConfig
unfolding slo_loop
parse_slo_endpoints [] = no_slo
parse_slo_endpoints (ep ∷ endpoints) =
    slo_loop (record no_slo { do_single_logout = true }) (ep ∷ endpoints)
