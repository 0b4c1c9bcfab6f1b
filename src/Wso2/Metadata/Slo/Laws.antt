-- ===== src/Wso2/Metadata/Slo/Laws.antt =====
-- `parseSLOEndpoints` against a description with no loop.
use wso2is_operator.Base.{
  Bool, true, false, List, [], ◌∷◌, Option, none, some, ◌==◌, eq_iff, All, find, find_last,
  if◌then◌else◌, ◌≡◌, refl, ◌≢◌, arith, other_text,
}
use wso2is_operator.Wso2.Metadata.Descriptor.{SloEndpoint}
use wso2is_operator.Wso2.Metadata.Slo.{
  binding_http_post, binding_http_redirect, binding_soap, SloConfig, response_of, slo_round,
  slo_loop, no_slo, parse_slo_endpoints,
}

abbrev pub is_post : SloEndpoint → Bool
is_post ep = ep.binding == binding_http_post

abbrev pub is_redirect : SloEndpoint → Bool
is_redirect ep = ep.binding == binding_http_redirect

abbrev pub is_soap : SloEndpoint → Bool
is_soap ep = ep.binding == binding_soap

-- A front-channel endpoint decides the binding and both URLs; without one, a SOAP endpoint gives
-- the URLs.
abbrev pub slo_config : Option SloEndpoint → Option SloEndpoint → SloConfig
slo_config (some ep) soap = record {
  do_single_logout = true;
  do_front_channel = true;
  front_channel_binding = ep.binding;
  request_url = ep.location;
  response_url = response_of ep;
}
slo_config none (some ep) = record {
  do_single_logout = true;
  do_front_channel = false;
  front_channel_binding = "";
  request_url = ep.location;
  response_url = ep.location;
}
slo_config none none = record no_slo { do_single_logout = true }

abbrev or_else : Option SloEndpoint → Option SloEndpoint → Option SloEndpoint
or_else none o = o
or_else (some ep) o = some ep

-- The last POST endpoint, else the one at hand, else the first Redirect endpoint.
abbrev front_from : Option SloEndpoint → List SloEndpoint → Option SloEndpoint
front_from front endpoints =
    or_else (find_last is_post endpoints) (or_else front (find is_redirect endpoints))

abbrev pub HasLocation : SloEndpoint → Type 0
HasLocation ep = ep.location ≢ ""

abbrev Located : Option SloEndpoint → Type 0
Located none = Unit {0}
Located (some ep) = HasLocation ep

redirect-post : (ep : SloEndpoint) → is_post ep ≡ true → is_redirect ep ≡ false
redirect-post ep = other_text ep.binding binding_http_post binding_http_redirect refl

soap-post : (ep : SloEndpoint) → is_post ep ≡ true → is_soap ep ≡ false
soap-post ep = other_text ep.binding binding_http_post binding_soap refl

soap-redirect : (ep : SloEndpoint) → is_redirect ep ≡ true → is_soap ep ≡ false
soap-redirect ep = other_text ep.binding binding_http_redirect binding_soap refl

-- The first SOAP endpoint, after the one at hand.
abbrev soap_from : Option SloEndpoint → List SloEndpoint → Option SloEndpoint
soap_from soap endpoints = or_else soap (find is_soap endpoints)

abbrev front_round : Option SloEndpoint → SloEndpoint → Option SloEndpoint
front_round front ep =
    if is_post ep then some ep else or_else front (if is_redirect ep then some ep else none)

abbrev soap_round : Option SloEndpoint → SloEndpoint → Option SloEndpoint
soap_round soap ep = or_else soap (if is_soap ep then some ep else none)

slo_round-config :
    (front soap : Option SloEndpoint) (ep : SloEndpoint)
    → Located front
    → Located soap
    → HasLocation ep
    → slo_round (slo_config front soap) ep ≡ slo_config (front_round front ep) (soap_round soap ep)
unfolding slo_round
slo_round-config none none ep f s h =
    ground (arith, redirect-post ep, soap-post ep, soap-redirect ep)
slo_round-config none (some t) ep f s h =
    ground (arith, redirect-post ep, soap-post ep, soap-redirect ep, eq_iff t.location "")
slo_round-config (some g) soap ep f s h =
    ground (arith, redirect-post ep, soap-post ep, soap-redirect ep, eq_iff g.location "")

front-round :
    (front : Option SloEndpoint) (ep : SloEndpoint) (endpoints : List SloEndpoint)
    → front_from (front_round front ep) endpoints ≡ front_from front (ep ∷ endpoints)
unfolding find find_last
front-round front ep endpoints = ground (arith, redirect-post ep)

soap-round :
    (soap : Option SloEndpoint) (ep : SloEndpoint) (endpoints : List SloEndpoint)
    → soap_from (soap_round soap ep) endpoints ≡ soap_from soap (ep ∷ endpoints)
unfolding find
soap-round soap ep endpoints = ground arith

Located-front_round :
    (front : Option SloEndpoint) (ep : SloEndpoint)
    → Located front
    → HasLocation ep
    → Located (front_round front ep)
Located-front_round front ep f h = ground arith

Located-soap_round :
    (soap : Option SloEndpoint) (ep : SloEndpoint)
    → Located soap
    → HasLocation ep
    → Located (soap_round soap ep)
Located-soap_round soap ep f h = ground arith

slo_loop-config :
    (front soap : Option SloEndpoint) (endpoints : List SloEndpoint)
    → Located front
    → Located soap
    → All HasLocation endpoints
    → slo_loop (slo_config front soap) endpoints
      ≡ slo_config (front_from front endpoints) (soap_from soap endpoints)
unfolding slo_loop find find_last
slo_loop-config front soap [] f s _ = ground arith
slo_loop-config front soap (ep ∷ endpoints) f s (h, hs) =
    rw (slo_round-config front soap ep f s h) (
      rw (← front-round front ep endpoints, ← soap-round soap ep endpoints)
        (slo_loop-config (front_round front ep) (soap_round soap ep) endpoints
          (Located-front_round front ep f h) (Located-soap_round soap ep s h) hs))

-- What the comments of `parseSLOEndpoints` promise: the front channel (the last POST endpoint, else
-- the first Redirect endpoint) before the first SOAP endpoint.
abbrev pub slo_spec : List SloEndpoint → SloConfig
slo_spec [] = no_slo
slo_spec (ep ∷ endpoints) =
    slo_config (front_from none (ep ∷ endpoints)) (soap_from none (ep ∷ endpoints))

-- On endpoints that all have a Location, `parseSLOEndpoints` returns the logout settings of the last
-- POST endpoint, if there is none those of the first Redirect endpoint, and if there is neither the
-- Location of the first SOAP endpoint as both URLs, with no front channel.
pub parse_slo_endpoints_lem :
    (endpoints : List SloEndpoint)
    → All HasLocation endpoints
    → parse_slo_endpoints endpoints ≡ slo_spec endpoints
unfolding parse_slo_endpoints
parse_slo_endpoints_lem [] _ = refl
parse_slo_endpoints_lem (ep ∷ endpoints) h = slo_loop-config none none (ep ∷ endpoints) tt tt h

-- A SOAP endpoint that follows a POST endpoint with an empty Location takes over both URLs, while
-- the binding stays that of the POST endpoint.
pub parse_slo_endpoints-soap_override :
    (post soap : SloEndpoint)
    → is_post post ≡ true
    → post.location ≡ ""
    → is_soap soap ≡ true
    → parse_slo_endpoints (post ∷ soap ∷ []) ≡ record {
      do_single_logout = true;
      do_front_channel = true;
      front_channel_binding = binding_http_post;
      request_url = soap.location;
      response_url = soap.location;
    }
unfolding parse_slo_endpoints
parse_slo_endpoints-soap_override post soap p e s = ground (
  arith,
  eq_iff post.binding binding_http_post,
  other_text soap.binding binding_soap binding_http_post refl s,
  other_text soap.binding binding_soap binding_http_redirect refl s,
  eq_iff post.location "",
)
