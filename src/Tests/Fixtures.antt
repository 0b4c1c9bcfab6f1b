-- ===== src/Tests/Fixtures.antt =====
-- A concrete platform and concrete objects for the tests.
use wso2is_operator.Base.{
  String, ◌<>◌, Bool, true, false, List, [], ◌∷◌, Option, none, some, pos, ◌==◌, ◌||◌,
  if◌then◌else◌,
}
use wso2is_operator.Base.Result.{Result, ok, err}
use wso2is_operator.Api.Meta.{ObjectMeta}
use wso2is_operator.Api.Sp.{Wso2Sp}
use wso2is_operator.Api.Instance.{Wso2IsInstance}
use wso2is_operator.System.Kube.{Secret, Lookup, found, not_found}
use wso2is_operator.System.Http.{Response, unreachable}
use wso2is_operator.System.Platform.{Platform, System}
use wso2is_operator.Wso2.Client.Transport.{Client}

-- The server gives one reply to everything, and each write has one result.
pub record World : Type 0 where
  pub reply : Result Response
  pub write_error : Option String
  pub sp : Lookup Wso2Sp
  pub instance : Lookup Wso2IsInstance
  pub secret : Lookup Secret

abbrev contains : String → List String → Bool
contains f [] = false
contains f (g ∷ fs) = g == f || contains f fs

abbrev remove : String → List String → List String
remove f [] = []
remove f (g ∷ fs) = let rest = remove f fs in if g == f then rest else g ∷ rest

abbrev pub platform : Platform
platform = record {
  State = World;
  send = λ _ w. (w.reply, w);
  fetch = λ _ w. (unreachable "no route", w);
  get_sp = λ _ w. (w.sp, w);
  get_instance = λ _ w. (w.instance, w);
  get_secret = λ _ w. (w.secret, w);
  get_config_map = λ _ w. (not_found "no config map", w);
  create_secret = λ _ w. (w.write_error, w);
  update_secret = λ _ w. (w.write_error, w);
  update_sp = λ o w. ((w.write_error, o), w);
  update_sp_status = λ o w. ((w.write_error, o), w);
  patch_sp_status = λ _ o w. ((w.write_error, o), w);
  update_instance_status = λ o w. ((w.write_error, o), w);
  now = λ w. (pos 1000, w);
  set_controller_reference = λ o sec. ok (record sec { owner = some o.meta.name });
  contains_finalizer = contains;
  add_finalizer = λ f fs. f ∷ fs;
  remove_finalizer = remove;
  quote = λ s. "'" <> (s <> "'");
  decode_object = λ _. err "not decoded";
  decode_users = λ _. err "not decoded";
  decode_groups = λ _. err "not decoded";
  decode_application = λ _. err "not decoded";
  decode_oauth = λ _. err "not decoded";
  decode_saml = λ _. err "not decoded";
  unmarshal = λ _. err "not XML";
  digest = λ _. "";
  sort_claims = λ cs. cs;
}

abbrev pub portal_meta : ObjectMeta
portal_meta = record {
  name = "portal";
  namespace = "apps";
  generation = pos 1;
  deleting = false;
  finalizers = [];
  annotations = none;
}

abbrev pub portal : Wso2Sp
portal = record {
  meta = portal_meta;
  spec = record {
    instance_ref = some "main";
    name = "portal";
    claims = [];
    description = "";
    subject_claim_uri = "";
    saml = none;
    oauth2 = none;
    authentication_steps = none;
    authentication_script = none;
    always_send_back_authenticated_list_of_idps = false;
    enable_authorization = false;
    skip_consent = false;
    skip_logout_consent = false;
    use_tenant_in_sub = false;
    use_userstore_in_sub = false;
    use_userstore_in_roles = false;
    step_for_subject = pos 1;
    step_for_attributes = pos 1;
  };
  status = record {
    id = pos 0;
    resource_id = "";
    phase = "";
    admin_can_view = false;
    message = "";
    conditions = [];
  };
}

abbrev pub main_secret : Secret
main_secret = record {
  key = record { namespace = "apps"; name = "main-credentials" };
  string_data = none;
  contents = some (("username", "operator") ∷ ("password", "secret") ∷ []);
  owner = none;
}

abbrev pub main_instance : Wso2IsInstance
main_instance = record {
  meta = record portal_meta { name = "main" };
  spec = record {
    base_url = "https://is.example.org";
    credentials_secret = record { name = "main-credentials"; namespace = "" };
    insecure_skip_tls_verify = false;
    tenant_domain = "";
  };
  status = record { ready = true; message = ""; phase = "Ready"; conditions = [] };
}

abbrev pub main_client : Client
main_client = record {
  base_url = "https://is.example.org";
  username = "operator";
  password = "secret";
  tenant = "carbon.super";
  skip_tls = false;
}

abbrev pub world : Result Response → Option String → World
world reply write_error = record {
  reply = reply;
  write_error = write_error;
  sp = found portal;
  instance = found main_instance;
  secret = found main_secret;
}

abbrev pub start : Result Response → Option String → System platform
start reply write_error = record { world = world reply write_error; calls = [] }

abbrev pub good_reply : Result Response
good_reply = ok (record { body = ""; status_code = 200; location = "" })

abbrev pub failing_reply : Result Response
failing_reply = ok (record { body = ""; status_code = 500; location = "" })

abbrev pub no_reply : Result Response
no_reply = err "connection refused"
