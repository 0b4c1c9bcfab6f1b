-- ===== src/Controller/Reconcile/Saml.antt =====
-- internal/controller/wso2sp_controller.go: `reconcileSAMLApplication`.
use wso2is_operator.Base.{◌<>◌, [], ◌∷◌, Option, none, some, ◌==◌, if◌then◌else◌}
use wso2is_operator.Base.Exit.{nil_dereference}
use wso2is_operator.Base.Result.{Result, ok, err}
use wso2is_operator.Api.Sp
use wso2is_operator.Api.Sp.{Wso2Sp}
use wso2is_operator.Wso2.App.{SamlConfig}
use wso2is_operator.Wso2.Client.Transport.{Client}
use wso2is_operator.Wso2.Client.Metadata.{fetch_sp_metadata}
use wso2is_operator.Wso2.Client.Soap.{
  get_application_saml_config, create_saml_application, update_saml_application,
}
use wso2is_operator.System.Platform.{Platform, M, pure, panic, ◌>>=◌, ◌>>◌}
use wso2is_operator.Controller.Changed.{saml_sp_has_changed}
use wso2is_operator.Controller.Phase.{Turn, warn, notify, fail_with}
use wso2is_operator.Controller.Secrets.{Texts, upsert_application_secret}

abbrev pub with_flags : Sp.SamlConfig → SamlConfig → SamlConfig
with_flags saml desired = record desired {
  enable_attribute_profile = saml.enable_attribute_profile;
  enable_attributes_by_default = saml.include_attributes_by_default;
}

abbrev pub saml_secret : SamlConfig → Texts
saml_secret existing =
    ("saml_issuer", existing.issuer)
    ∷ ("saml_attrConsumingServiceIndex", existing.attribute_consuming_service_index)
    ∷ []

module _ (P : Platform) (c : Client) (sp : Wso2Sp) where
  unfoldable pub create_saml_sp : SamlConfig → M P Turn
  create_saml_sp desired = do
    e ← create_saml_application P c desired
    elim e [
      | some e ↦ fail_with P sp "CreateSAMLFailed" "Creating" e
      | none ↦ do
        notify "SAMLCreated" "Creating"
        pure (record { sp = sp; requeue_after = 5; error = none })
    ]

  unfoldable pub update_saml_sp : SamlConfig → M P Turn
  update_saml_sp desired = do
    e ← update_saml_application P c desired
    elim e [
      | some e ↦ fail_with P sp "UpdateSAMLFailed" "Updating" e
      | none ↦ do
        notify "SAMLUpdated" "Updating"
        pure (record { sp = sp; requeue_after = 0; error = none })
    ]

  unfoldable pub sync_saml_sp : SamlConfig → SamlConfig → M P Turn
  unfolding update_saml_sp
  sync_saml_sp existing desired = do
    e ← upsert_application_secret P sp (saml_secret existing)
    elim e [
      | some e ↦ do
        warn "CreateSAMLFailed" "Creating"
        pure (record { sp = sp; requeue_after = 0; error = some e })
      | none ↦
          if saml_sp_has_changed P.digest existing desired
          then update_saml_sp desired
          else pure (record { sp = sp; requeue_after = 0; error = none })
    ]

  -- From the point where the existing configuration is read. `existing.Issuer` panics if there is none.
  unfoldable pub after_saml_lookup : SamlConfig → Result (Option SamlConfig) → M P Turn
  unfolding create_saml_sp sync_saml_sp
  after_saml_lookup desired (err e) = fail_with P sp "GetSAMLFailed" "Reconciling" e
  after_saml_lookup desired (ok none) = panic nil_dereference
  after_saml_lookup desired (ok (some existing)) =
      if existing.issuer == "" then create_saml_sp desired else sync_saml_sp existing desired

  -- From the point where the metadata is fetched.
  unfoldable pub reconcile_saml_config : SamlConfig → M P Turn
  unfolding after_saml_lookup
  reconcile_saml_config desired = do
    r ← get_application_saml_config P c desired.issuer
    after_saml_lookup desired r

  unfoldable pub reconcile_saml_application : Sp.SamlConfig → M P Turn
  unfolding reconcile_saml_config
  reconcile_saml_application saml = do
    d ← fetch_sp_metadata P saml.metadata_url
    elim d [
      | err e ↦
          fail_with P sp "SAMLMetadataFailed" "FetchingMetadata"
            ("saml metadata fetch failed: " <> e)
      | ok desired ↦ reconcile_saml_config (with_flags saml desired)
    ]
