-- ===== src/Controller/Trace/Parts.antt =====
-- The calls that the parts of `reconcileApplication` can make.
use wso2is_operator.Base.{String, ◌<>◌, Bool, Option, none, some}
use wso2is_operator.Base.Result.{Result, ok, err}
use wso2is_operator.Api.Sp
use wso2is_operator.Api.Sp.{Wso2Sp}
use wso2is_operator.Wso2.App.{OAuth2Config, SamlConfig, Application}
use wso2is_operator.Wso2.Client.Transport.{Client}
use wso2is_operator.Wso2.Client.Metadata.{fetch_sp_metadata}
use wso2is_operator.System.Platform.{Platform}
use wso2is_operator.System.Trace.{
  Rule, Only, Only-pure, Only-panic, Only-bind, Only-then, Only-if, Only-Option, Only-Result,
}
use wso2is_operator.Controller.Spec.{oauth2_from_spec}
use wso2is_operator.Controller.Phase.{phase_failed, fail_with}
use wso2is_operator.Controller.Secrets.{
  Texts, upsert_application_secret, populate, populate_inbound_secrets, given, with_oauth2,
  with_saml,
}
use wso2is_operator.Controller.Reconcile.Oauth.{
  create_oauth2, update_oauth2, sync_oauth2, after_oauth2_lookup, reconcile_application_oauth2,
}
use wso2is_operator.Controller.Reconcile.Saml.{
  create_saml_sp, update_saml_sp, sync_saml_sp, after_saml_lookup, reconcile_saml_config,
  reconcile_saml_application,
}
use wso2is_operator.Controller.Reconcile.Admin.{grant_admin_access, reconcile_admin_access}
use wso2is_operator.Controller.Trace.Cluster.{Allows, set_phase-Only, upsert-Only}
use wso2is_operator.Controller.Trace.Client.{
  get_application_oauth2_config-Only, create_application_oauth2_config-Only,
  update_application_oauth2_config-Only, get_application_saml_config-Only,
  create_saml_application-Only, update_saml_application-Only, join_admin_to_group-Only,
  get_admin_group_membership-Only,
}

module _ (P : Platform) (Q : Rule P) (c : Client) (allowed : Allows P Q c) where
  pub fail_with-Only : (sp : Wso2Sp) (r a m : String) → Only Q (fail_with P sp r a m)
  unfolding fail_with
  fail_with-Only sp r a m =
      Only-then Q _ _ (allowed.records _)
        (set_phase-Only P Q sp phase_failed m 30 (allowed.updates_status _))

  upsert_application_secret-Only :
      (sp : Wso2Sp) (kv : Texts) → Only Q (upsert_application_secret P sp kv)
  upsert_application_secret-Only = upsert-Only P Q allowed.secrets

  populate-Only :
      (sp : Wso2Sp) (wanted : Bool) (put : Application → Texts → Application) (a : Application)
      → Only Q (populate P sp wanted put a)
  unfolding populate
  populate-Only sp wanted put a =
      Only-if Q _ _ _ (Only-pure Q _)
        (Only-bind Q _ _ (allowed.secrets.reads _) (λ _. Only-pure Q _))

  pub populate_inbound_secrets-Only :
      (sp : Wso2Sp) (a : Application) → Only Q (populate_inbound_secrets P sp a)
  unfolding populate_inbound_secrets
  populate_inbound_secrets-Only sp a =
      Only-bind Q _ _ (populate-Only sp (given sp.spec.oauth2) with_oauth2 a) (λ r.
        Only-Result Q r _ _ (λ e. Only-pure Q (err e))
          (λ a'. populate-Only sp (given sp.spec.saml) with_saml a'))

  create_oauth2-Only : (sp : Wso2Sp) (d : OAuth2Config) → Only Q (create_oauth2 P c sp d)
  unfolding create_oauth2
  create_oauth2-Only sp d =
      Only-bind Q _ _ (create_application_oauth2_config-Only P Q c allowed.sends sp.spec.name d)
        (λ r.
          Only-Option Q r _ _ (λ e. fail_with-Only sp "CreateOAuth2Failed" "Creating" e)
            (Only-pure Q _))

  update_oauth2-Only : (sp : Wso2Sp) (d : OAuth2Config) → Only Q (update_oauth2 P c sp d)
  unfolding update_oauth2
  update_oauth2-Only sp d =
      Only-bind Q _ _ (update_application_oauth2_config-Only P Q c allowed.sends sp.spec.name d)
        (λ r.
          Only-Option Q r _ _ (λ e. fail_with-Only sp "UpdateOAuth2Failed" "Updating" e)
            (Only-then Q _ _ (allowed.records _) (Only-pure Q _)))

  sync_oauth2-Only : (sp : Wso2Sp) (x d : OAuth2Config) → Only Q (sync_oauth2 P c sp x d)
  unfolding sync_oauth2
  sync_oauth2-Only sp x d = Only-bind Q _ _ (upsert_application_secret-Only sp _) (λ r.
      Only-Option Q r _ _ (λ e. Only-then Q _ _ (allowed.records _) (Only-pure Q _))
        (Only-if Q _ _ _ (update_oauth2-Only sp _) (Only-pure Q _)))

  after_oauth2_lookup-Only :
      (sp : Wso2Sp) (o : Sp.OAuth2Config) (r : Result (Option OAuth2Config))
      → Only Q (after_oauth2_lookup P c sp o r)
  unfolding after_oauth2_lookup
  after_oauth2_lookup-Only sp o (err e) = fail_with-Only sp "GetOAuth2Failed" "Reconciling" e
  after_oauth2_lookup-Only sp o (ok none) = create_oauth2-Only sp (oauth2_from_spec o)
  after_oauth2_lookup-Only sp o (ok (some x)) = sync_oauth2-Only sp x (oauth2_from_spec o)

  pub reconcile_application_oauth2-Only :
      (sp : Wso2Sp) (o : Sp.OAuth2Config) → Only Q (reconcile_application_oauth2 P c sp o)
  unfolding reconcile_application_oauth2
  reconcile_application_oauth2-Only sp o =
      Only-bind Q _ _ (get_application_oauth2_config-Only P Q c allowed.sends sp.spec.name)
        (after_oauth2_lookup-Only sp o)

  create_saml_sp-Only : (sp : Wso2Sp) (d : SamlConfig) → Only Q (create_saml_sp P c sp d)
  unfolding create_saml_sp
  create_saml_sp-Only sp d =
      Only-bind Q _ _ (create_saml_application-Only P Q c allowed.sends d) (λ r.
        Only-Option Q r _ _ (λ e. fail_with-Only sp "CreateSAMLFailed" "Creating" e)
          (Only-then Q _ _ (allowed.records _) (Only-pure Q _)))

  update_saml_sp-Only : (sp : Wso2Sp) (d : SamlConfig) → Only Q (update_saml_sp P c sp d)
  unfolding update_saml_sp
  update_saml_sp-Only sp d =
      Only-bind Q _ _ (update_saml_application-Only P Q c allowed.sends d) (λ r.
        Only-Option Q r _ _ (λ e. fail_with-Only sp "UpdateSAMLFailed" "Updating" e)
          (Only-then Q _ _ (allowed.records _) (Only-pure Q _)))

  sync_saml_sp-Only : (sp : Wso2Sp) (x d : SamlConfig) → Only Q (sync_saml_sp P c sp x d)
  unfolding sync_saml_sp
  sync_saml_sp-Only sp x d = Only-bind Q _ _ (upsert_application_secret-Only sp _) (λ r.
      Only-Option Q r _ _ (λ e. Only-then Q _ _ (allowed.records _) (Only-pure Q _))
        (Only-if Q _ _ _ (update_saml_sp-Only sp d) (Only-pure Q _)))

  after_saml_lookup-Only :
      (sp : Wso2Sp) (d : SamlConfig) (r : Result (Option SamlConfig))
      → Only Q (after_saml_lookup P c sp d r)
  unfolding after_saml_lookup
  after_saml_lookup-Only sp d (err e) = fail_with-Only sp "GetSAMLFailed" "Reconciling" e
  after_saml_lookup-Only sp d (ok none) = Only-panic Q _ _
  after_saml_lookup-Only sp d (ok (some x)) =
      Only-if Q _ _ _ (create_saml_sp-Only sp d) (sync_saml_sp-Only sp x d)

  reconcile_saml_config-Only :
      (sp : Wso2Sp) (d : SamlConfig) → Only Q (reconcile_saml_config P c sp d)
  unfolding reconcile_saml_config
  reconcile_saml_config-Only sp d =
      Only-bind Q _ _ (get_application_saml_config-Only P Q c allowed.sends d.issuer)
        (after_saml_lookup-Only sp d)

  fetch_sp_metadata-Only : (url : String) → Only Q (fetch_sp_metadata P url)
  unfolding fetch_sp_metadata
  fetch_sp_metadata-Only url =
      Only-bind Q _ _ (Only-bind Q _ _ (allowed.fetches _) (λ _. Only-pure Q _))
        (λ _. Only-pure Q _)

  pub reconcile_saml_application-Only :
      (sp : Wso2Sp) (s : Sp.SamlConfig) → Only Q (reconcile_saml_application P c sp s)
  unfolding reconcile_saml_application
  reconcile_saml_application-Only sp s =
      Only-bind Q _ _ (fetch_sp_metadata-Only s.metadata_url) (λ d.
        Only-Result Q d _ _
          (λ e.
            fail_with-Only sp "SAMLMetadataFailed" "FetchingMetadata"
              ("saml metadata fetch failed: " <> e))
          (λ desired. reconcile_saml_config-Only sp _))

  grant_admin_access-Only : (sp : Wso2Sp) (g : String) → Only Q (grant_admin_access P c sp g)
  unfolding grant_admin_access
  grant_admin_access-Only sp g =
      Only-bind Q _ _ (join_admin_to_group-Only P Q c allowed.sends g) (λ e.
        Only-Option Q e _ _
          (λ e.
            fail_with-Only sp "SetFailed" "UpdatingAdminGroup" ("admin group update failed: " <> e))
          (Only-pure Q _))

  pub reconcile_admin_access-Only : (sp : Wso2Sp) → Only Q (reconcile_admin_access P c sp)
  unfolding reconcile_admin_access
  reconcile_admin_access-Only sp = Only-if Q _ _ _ (Only-pure Q _) (
      Only-bind Q _ _ (get_admin_group_membership-Only P Q c allowed.sends sp.spec.name) (λ m.
        Only-Result Q m _ _
          (λ e. fail_with-Only sp "GetFailed" "Reconciling" ("admin group lookup failed: " <> e))
          (λ v. Only-if Q v.0 _ _ (Only-pure Q _) (grant_admin_access-Only sp v.1))))
