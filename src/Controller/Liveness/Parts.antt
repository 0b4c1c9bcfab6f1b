-- ===== src/Controller/Liveness/Parts.antt =====
-- The OAuth part, the SAML part and the administrator's part of a reconciliation return, and ask for
-- no wait of more than five minutes.
use wso2is_operator.Base.{String, ◌<>◌, arith, Option, none, some}
use wso2is_operator.Base.Result.{Result, ok, err}
use wso2is_operator.Api.Sp
use wso2is_operator.Api.Sp.{Wso2Sp}
use wso2is_operator.Wso2.App.{OAuth2Config, SamlConfig}
use wso2is_operator.Wso2.Client.Transport.{Client}
use wso2is_operator.Wso2.Client.Metadata.{fetch_sp_metadata}
use wso2is_operator.System.Platform.{Platform}
use wso2is_operator.System.Ends.{
  Ends, Anything, Ends-pure, Ends-call, Ends-event, Ends-bind, Ends-then, Ends-if, Ends-Option,
  Ends-Result,
}
use wso2is_operator.Controller.Spec.{oauth2_from_spec}
use wso2is_operator.Controller.Reconcile.Oauth.{
  create_oauth2, update_oauth2, sync_oauth2, after_oauth2_lookup, reconcile_application_oauth2,
}
use wso2is_operator.Controller.Reconcile.Saml.{
  create_saml_sp, update_saml_sp, sync_saml_sp, after_saml_lookup, reconcile_saml_config,
  reconcile_saml_application,
}
use wso2is_operator.Controller.Reconcile.Admin.{grant_admin_access, reconcile_admin_access}
use wso2is_operator.Controller.Liveness.Answers.{Answers}
use wso2is_operator.Controller.Liveness.Client.{
  create_application_oauth2_config-Ends, update_application_oauth2_config-Ends,
  create_saml_application-Ends, update_saml_application-Ends, join_admin_to_group-Ends,
  get_admin_group_membership-Ends,
}
use wso2is_operator.Controller.Liveness.Lookups.{
  IsKnown, get_application_oauth2_config-Ends, get_application_saml_config-Ends,
}
use wso2is_operator.Controller.Liveness.Cluster.{Saves, IsSoon, fails, upsert-Ends}

module _ (P : Platform) (saves : Saves P) (c : Client) (answers : Answers P c) where
  create_oauth2-Ends : (sp : Wso2Sp) (d : OAuth2Config) → Ends IsSoon (create_oauth2 P c sp d)
  unfolding create_oauth2
  create_oauth2-Ends sp d =
      Ends-bind _ _ (create_application_oauth2_config-Ends P c sp.spec.name d) (λ r _.
        Ends-Option r _ _ (λ e. fails P saves sp "CreateOAuth2Failed" "Creating" e)
          (Ends-pure _ (omega arith)))

  update_oauth2-Ends : (sp : Wso2Sp) (d : OAuth2Config) → Ends IsSoon (update_oauth2 P c sp d)
  unfolding update_oauth2
  update_oauth2-Ends sp d =
      Ends-bind _ _ (update_application_oauth2_config-Ends P c sp.spec.name d) (λ r _.
        Ends-Option r _ _ (λ e. fails P saves sp "UpdateOAuth2Failed" "Updating" e)
          (Ends-then _ _ (Ends-event _) (Ends-pure _ (omega arith))))

  sync_oauth2-Ends : (sp : Wso2Sp) (x d : OAuth2Config) → Ends IsSoon (sync_oauth2 P c sp x d)
  unfolding sync_oauth2
  sync_oauth2-Ends sp x d = Ends-bind _ _ (upsert-Ends P sp _) (λ r _.
      Ends-Option r _ _ (λ e. Ends-then _ _ (Ends-event _) (Ends-pure _ (omega arith)))
        (Ends-if _ _ _ (update_oauth2-Ends sp _) (Ends-pure _ (omega arith))))

  after_oauth2_lookup-Ends :
      (sp : Wso2Sp) (o : Sp.OAuth2Config) (r : Result (Option OAuth2Config))
      → Ends IsSoon (after_oauth2_lookup P c sp o r)
  unfolding after_oauth2_lookup
  after_oauth2_lookup-Ends sp o (err e) = fails P saves sp "GetOAuth2Failed" "Reconciling" e
  after_oauth2_lookup-Ends sp o (ok none) = create_oauth2-Ends sp (oauth2_from_spec o)
  after_oauth2_lookup-Ends sp o (ok (some x)) = sync_oauth2-Ends sp x (oauth2_from_spec o)

  pub reconcile_application_oauth2-Ends :
      (sp : Wso2Sp) (o : Sp.OAuth2Config) → Ends IsSoon (reconcile_application_oauth2 P c sp o)
  unfolding reconcile_application_oauth2
  reconcile_application_oauth2-Ends sp o =
      Ends-bind _ _ (get_application_oauth2_config-Ends P c answers sp.spec.name)
        (λ r _. after_oauth2_lookup-Ends sp o r)

  create_saml_sp-Ends : (sp : Wso2Sp) (d : SamlConfig) → Ends IsSoon (create_saml_sp P c sp d)
  unfolding create_saml_sp
  create_saml_sp-Ends sp d = Ends-bind _ _ (create_saml_application-Ends P c d) (λ r _.
      Ends-Option r _ _ (λ e. fails P saves sp "CreateSAMLFailed" "Creating" e)
        (Ends-then _ _ (Ends-event _) (Ends-pure _ (omega arith))))

  update_saml_sp-Ends : (sp : Wso2Sp) (d : SamlConfig) → Ends IsSoon (update_saml_sp P c sp d)
  unfolding update_saml_sp
  update_saml_sp-Ends sp d = Ends-bind _ _ (update_saml_application-Ends P c d) (λ r _.
      Ends-Option r _ _ (λ e. fails P saves sp "UpdateSAMLFailed" "Updating" e)
        (Ends-then _ _ (Ends-event _) (Ends-pure _ (omega arith))))

  sync_saml_sp-Ends : (sp : Wso2Sp) (x d : SamlConfig) → Ends IsSoon (sync_saml_sp P c sp x d)
  unfolding sync_saml_sp
  sync_saml_sp-Ends sp x d = Ends-bind _ _ (upsert-Ends P sp _) (λ r _.
      Ends-Option r _ _ (λ e. Ends-then _ _ (Ends-event _) (Ends-pure _ (omega arith)))
        (Ends-if _ _ _ (update_saml_sp-Ends sp d) (Ends-pure _ (omega arith))))

  after_saml_lookup-Ends :
      (sp : Wso2Sp) (d : SamlConfig) (r : Result (Option SamlConfig))
      → IsKnown r
      → Ends IsSoon (after_saml_lookup P c sp d r)
  unfolding after_saml_lookup
  after_saml_lookup-Ends sp d (err e) _ = fails P saves sp "GetSAMLFailed" "Reconciling" e
  after_saml_lookup-Ends sp d (ok none) h = absurd h
  after_saml_lookup-Ends sp d (ok (some x)) _ =
      Ends-if _ _ _ (create_saml_sp-Ends sp d) (sync_saml_sp-Ends sp x d)

  reconcile_saml_config-Ends :
      (sp : Wso2Sp) (d : SamlConfig) → Ends IsSoon (reconcile_saml_config P c sp d)
  unfolding reconcile_saml_config
  reconcile_saml_config-Ends sp d =
      Ends-bind _ _ (get_application_saml_config-Ends P c answers d.issuer)
        (after_saml_lookup-Ends sp d)

  fetch_sp_metadata-Ends : (url : String) → Ends Anything (fetch_sp_metadata P url)
  unfolding fetch_sp_metadata
  fetch_sp_metadata-Ends url =
      Ends-bind {Q = Anything} _ _
        (Ends-bind _ _ (Ends-call Anything _ _ (λ _. tt)) (λ _ _. Ends-pure _ tt))
        (λ _ _. Ends-pure _ tt)

  pub reconcile_saml_application-Ends :
      (sp : Wso2Sp) (s : Sp.SamlConfig) → Ends IsSoon (reconcile_saml_application P c sp s)
  unfolding reconcile_saml_application
  reconcile_saml_application-Ends sp s =
      Ends-bind _ _ (fetch_sp_metadata-Ends s.metadata_url) (λ d _.
        Ends-Result d _ _
          (λ e.
            fails P saves sp "SAMLMetadataFailed" "FetchingMetadata"
              ("saml metadata fetch failed: " <> e))
          (λ desired. reconcile_saml_config-Ends sp _))

  grant_admin_access-Ends : (sp : Wso2Sp) (g : String) → Ends IsSoon (grant_admin_access P c sp g)
  unfolding grant_admin_access
  grant_admin_access-Ends sp g = Ends-bind _ _ (join_admin_to_group-Ends P c g) (λ e _.
      Ends-Option e _ _
        (λ e.
          fails P saves sp "SetFailed" "UpdatingAdminGroup" ("admin group update failed: " <> e))
        (Ends-pure _ (omega arith)))

  pub reconcile_admin_access-Ends : (sp : Wso2Sp) → Ends IsSoon (reconcile_admin_access P c sp)
  unfolding reconcile_admin_access
  reconcile_admin_access-Ends sp = Ends-if _ _ _ (Ends-pure _ (omega arith)) (
      Ends-bind _ _ (get_admin_group_membership-Ends P c sp.spec.name) (λ m _.
        Ends-Result m _ _
          (λ e. fails P saves sp "GetFailed" "Reconciling" ("admin group lookup failed: " <> e))
          (λ v. Ends-if v.0 _ _ (Ends-pure _ (omega arith)) (grant_admin_access-Ends sp v.1))))
