-- ===== src/Controller/Settled/Parts.antt =====
-- What the parts of `reconcileApplication` do where the server has what the spec wants.
use mathlib.Core.Bool.{false≢true}
use wso2is_operator.Base.{
  String, Bool, true, false, Option, none, some, ◌==◌, ◌||◌, ◌≡◌, ◌⊎◌, inl, inr, refl, sym, subst,
  ◌∙◌, arith,
}
use wso2is_operator.Base.Result.{Result, ok}
use wso2is_operator.Api.Sp
use wso2is_operator.Api.Sp.{Wso2Sp}
use wso2is_operator.Wso2.App.{OAuth2Config, SamlConfig}
use wso2is_operator.Wso2.Client.Transport.{Client, new_request, json_request, soap_request}
use wso2is_operator.Wso2.Client.Metadata.{fetch_sp_metadata}
use wso2is_operator.Wso2.Client.Soap.{get_application_oauth2_config, get_application_saml_config}
use wso2is_operator.System.Http
use wso2is_operator.System.Http.{Payload, HttpRequest}
use wso2is_operator.System.Platform.{
  Platform, Call, sent, fetched_url, created_secret, updated_secret, updated_sp, updated_status,
  patched_status, updated_instance, recorded,
}
use wso2is_operator.System.Trace.{
  Rule, extending, Only, Only-pure, Only-bind, read-Only, call-Only, event-Only,
}
use wso2is_operator.System.Ends.{Ends, Ends-event}
use wso2is_operator.System.Does.{
  Does, Does-both, Does-pure, Does-bind, Does-then, Does-test, Does-Option,
}
use wso2is_operator.Controller.Spec.{oauth2_from_spec}
use wso2is_operator.Controller.Changed.{oauth2_has_changed, saml_sp_has_changed}
use wso2is_operator.Controller.Phase.{Turn}
use wso2is_operator.Controller.Reconcile.Oauth.{
  with_keys_of, sync_oauth2, after_oauth2_lookup, reconcile_application_oauth2,
}
use wso2is_operator.Controller.Reconcile.Saml.{
  with_flags, sync_saml_sp, after_saml_lookup, reconcile_saml_config, reconcile_saml_application,
}
use wso2is_operator.Controller.Trace.Cluster.{WritesSecrets, upsert-Only}
use wso2is_operator.Controller.Trace.Lookup.{Looks, oauth2_lookup-Only, saml_lookup-Only}
use wso2is_operator.Controller.Liveness.Cluster.{IsQueued, upsert-Ends}

abbrev asks : Option Payload → Bool
asks (some (Http.get_application _)) = true
asks (some (Http.get_oauth _)) = true
asks (some (Http.get_service_provider _)) = true
asks _ = false

-- A request that changes nothing on the server.
abbrev pub is_lookup : HttpRequest → Bool
is_lookup req = req.method == "GET" || asks req.body

-- A call that changes nothing on the server, nor the object, its status excepted.
abbrev pub is_quiet : Call → Bool
is_quiet (sent req) = is_lookup req
is_quiet (fetched_url _) = true
is_quiet (created_secret _) = true
is_quiet (updated_secret _) = true
is_quiet (updated_sp _) = false
is_quiet (updated_status _) = false
is_quiet (patched_status _) = true
is_quiet (updated_instance _) = false
is_quiet (recorded _) = true

abbrev pub quiet : (P : Platform) → Rule P
quiet P = extending is_quiet

pub quiet-Looks : (P : Platform) (c : Client) → Looks P (quiet P) c
unfolding new_request json_request soap_request
quiet-Looks P c = record {
  at_list = λ name. call-Only is_quiet _ _ refl;
  at_application = λ name. call-Only is_quiet _ _ refl;
  at_oauth2 = λ name. call-Only is_quiet _ _ refl;
  at_saml = λ issuer. call-Only is_quiet _ _ refl;
}

quiet-WritesSecrets : (P : Platform) → WritesSecrets P (quiet P)
quiet-WritesSecrets P = record {
  reads = λ k. read-Only is_quiet _;
  creates = λ sec. call-Only is_quiet _ _ refl;
  updates = λ sec. call-Only is_quiet _ _ refl;
}

abbrev pub passed : Wso2Sp → Turn
passed sp = record { sp = sp; requeue_after = 0; error = none }

-- The step lets the caller go on with the object as it was, or it stops with an error.
abbrev pub Passes : Wso2Sp → Turn → Type 0
Passes sp t = (t ≡ passed sp) ⊎ IsQueued t

-- The lookup finds a configuration, and the comparison finds no change.
abbrev pub OauthInSync : Platform → Sp.OAuth2Config → Result (Option OAuth2Config) → Type 0
OauthInSync P o r =
    (existing : OAuth2Config) × (r ≡ ok (some existing))
    × (oauth2_has_changed P.digest existing (with_keys_of existing (oauth2_from_spec o)) ≡ false)

abbrev pub SamlInSync : Platform → SamlConfig → Result (Option SamlConfig) → Type 0
SamlInSync P desired r =
    (existing : SamlConfig) × (r ≡ ok (some existing))
    × ((existing.issuer == "") ≡ false)
    × (saml_sp_has_changed P.digest existing desired ≡ false)

-- The metadata can be read, and the configuration that it gives is in sync.
abbrev pub MetadataInSync : Platform → Client → Sp.SamlConfig → Result SamlConfig → Type 0
MetadataInSync P c saml d =
    (desired : SamlConfig) × (d ≡ ok desired)
    × Ends (SamlInSync P (with_flags saml desired)) (get_application_saml_config P c desired.issuer)

module _ (P : Platform) (c : Client) (sp : Wso2Sp) where
  sync_oauth2-Does :
      (existing desired : OAuth2Config)
      → oauth2_has_changed P.digest existing (with_keys_of existing desired) ≡ false
      → Does (quiet P) (Passes sp) (sync_oauth2 P c sp existing desired)
  unfolding sync_oauth2
  sync_oauth2-Does existing desired same =
      let Q : Rule P = quiet P in
      Does-bind Q _ _
        (Does-both Q (upsert-Only P Q (quiet-WritesSecrets P) sp _) (upsert-Ends P sp _))
        (λ e _.
          Does-Option Q e _ _
            (λ e _.
              Does-then Q _ _ (Does-both Q (event-Only is_quiet _ refl) (Ends-event _))
                (Does-pure Q _ (inr (refl, omega arith))))
            (λ _.
              Does-test Q _ _ _ (λ h. absurd (false≢true (sym same ∙ h)))
                (λ _. Does-pure Q _ (inl refl))))

  after_oauth2_lookup-Does :
      (o : Sp.OAuth2Config) (r : Result (Option OAuth2Config))
      → OauthInSync P o r
      → Does (quiet P) (Passes sp) (after_oauth2_lookup P c sp o r)
  unfolding after_oauth2_lookup
  after_oauth2_lookup-Does o r (existing, e, same) =
      subst (λ r. Does (quiet P) (Passes sp) (after_oauth2_lookup P c sp o r)) (sym e)
        (sync_oauth2-Does existing (oauth2_from_spec o) same)

  pub reconcile_application_oauth2-Does :
      (o : Sp.OAuth2Config)
      → Ends (OauthInSync P o) (get_application_oauth2_config P c sp.spec.name)
      → Does (quiet P) (Passes sp) (reconcile_application_oauth2 P c sp o)
  unfolding reconcile_application_oauth2
  reconcile_application_oauth2-Does o finds =
      let Q : Rule P = quiet P in
      Does-bind Q _ _ (Does-both Q (oauth2_lookup-Only P Q c (quiet-Looks P c) sp.spec.name) finds)
        (after_oauth2_lookup-Does o)

  sync_saml_sp-Does :
      (existing desired : SamlConfig)
      → saml_sp_has_changed P.digest existing desired ≡ false
      → Does (quiet P) (Passes sp) (sync_saml_sp P c sp existing desired)
  unfolding sync_saml_sp
  sync_saml_sp-Does existing desired same =
      let Q : Rule P = quiet P in
      Does-bind Q _ _
        (Does-both Q (upsert-Only P Q (quiet-WritesSecrets P) sp _) (upsert-Ends P sp _))
        (λ e _.
          Does-Option Q e _ _
            (λ e _.
              Does-then Q _ _ (Does-both Q (event-Only is_quiet _ refl) (Ends-event _))
                (Does-pure Q _ (inr (refl, omega arith))))
            (λ _.
              Does-test Q _ _ _ (λ h. absurd (false≢true (sym same ∙ h)))
                (λ _. Does-pure Q _ (inl refl))))

  after_saml_lookup-Does :
      (desired : SamlConfig) (r : Result (Option SamlConfig))
      → SamlInSync P desired r
      → Does (quiet P) (Passes sp) (after_saml_lookup P c sp desired r)
  unfolding after_saml_lookup
  after_saml_lookup-Does desired r (existing, e, named, same) =
      subst (λ r. Does (quiet P) (Passes sp) (after_saml_lookup P c sp desired r)) (sym e)
        (Does-test (quiet P) (existing.issuer == "") _ _ (λ h. absurd (false≢true (sym named ∙ h)))
          (λ _. sync_saml_sp-Does existing desired same))

  fetch_sp_metadata-Only : (url : String) → Only (quiet P) (fetch_sp_metadata P url)
  unfolding fetch_sp_metadata
  fetch_sp_metadata-Only url =
      let Q : Rule P = quiet P in
      Only-bind Q _ _ (Only-bind Q _ _ (call-Only is_quiet _ _ refl) (λ _. Only-pure Q _))
        (λ _. Only-pure Q _)

  pub reconcile_saml_application-Does :
      (saml : Sp.SamlConfig)
      → Ends (MetadataInSync P c saml) (fetch_sp_metadata P saml.metadata_url)
      → Does (quiet P) (Passes sp) (reconcile_saml_application P c sp saml)
  unfolding reconcile_saml_application reconcile_saml_config
  reconcile_saml_application-Does saml finds =
      let Q : Rule P = quiet P in
      Does-bind Q _ _ (Does-both Q (fetch_sp_metadata-Only saml.metadata_url) finds)
        (λ d (desired, e, found). rw e (
          Does-bind Q _ _
            (Does-both Q (saml_lookup-Only P Q c (quiet-Looks P c) desired.issuer) found)
            (after_saml_lookup-Does (with_flags saml desired))))
