-- ===== src/Controller/Reconcile/Oauth.antt =====
-- internal/controller/wso2sp_controller.go: `reconcileApplicationOAuth2`.
use wso2is_operator.Base.{[], ◌∷◌, Option, none, some, if◌then◌else◌}
use wso2is_operator.Base.Result.{Result, ok, err}
use wso2is_operator.Api.Sp
use wso2is_operator.Api.Sp.{Wso2Sp}
use wso2is_operator.Wso2.App.{OAuth2Config}
use wso2is_operator.Wso2.Client.Transport.{Client}
use wso2is_operator.Wso2.Client.Soap.{
  get_application_oauth2_config, create_application_oauth2_config, update_application_oauth2_config,
}
use wso2is_operator.System.Platform.{Platform, M, pure, ◌>>=◌, ◌>>◌}
use wso2is_operator.Controller.Spec.{oauth2_from_spec}
use wso2is_operator.Controller.Changed.{oauth2_has_changed}
use wso2is_operator.Controller.Phase.{Turn, warn, notify, fail_with}
use wso2is_operator.Controller.Secrets.{Texts, upsert_application_secret}

-- The desired configuration, with the consumer key and secret of the existing one.
abbrev pub with_keys_of : OAuth2Config → OAuth2Config → OAuth2Config
with_keys_of existing desired = record desired {
  oauth_consumer_key = existing.oauth_consumer_key;
  oauth_consumer_secret = existing.oauth_consumer_secret;
}

abbrev pub oauth2_secret : OAuth2Config → Texts
oauth2_secret existing =
    ("client_id", existing.oauth_consumer_key)
    ∷ ("client_secret", existing.oauth_consumer_secret)
    ∷ []

module _ (P : Platform) (c : Client) (sp : Wso2Sp) where
  unfoldable pub create_oauth2 : OAuth2Config → M P Turn
  create_oauth2 desired = do
    e ← create_application_oauth2_config P c sp.spec.name desired
    elim e [
      | some e ↦ fail_with P sp "CreateOAuth2Failed" "Creating" e
      | none ↦ pure (record { sp = sp; requeue_after = 5; error = none })
    ]

  unfoldable pub update_oauth2 : OAuth2Config → M P Turn
  update_oauth2 desired = do
    e ← update_application_oauth2_config P c sp.spec.name desired
    elim e [
      | some e ↦ fail_with P sp "UpdateOAuth2Failed" "Updating" e
      | none ↦ do
        notify "OAuth2Updated" "Updating"
        pure (record { sp = sp; requeue_after = 5; error = none })
    ]

  unfoldable pub sync_oauth2 : OAuth2Config → OAuth2Config → M P Turn
  unfolding update_oauth2
  sync_oauth2 existing desired = do
    e ← upsert_application_secret P sp (oauth2_secret existing)
    elim e [
      | some e ↦ do
        warn "CreateOAuth2Failed" "Creating"
        pure (record { sp = sp; requeue_after = 0; error = some e })
      | none ↦
          if oauth2_has_changed P.digest existing (with_keys_of existing desired)
          then update_oauth2 (with_keys_of existing desired)
          else pure (record { sp = sp; requeue_after = 0; error = none })
    ]

  -- From the point where the existing configuration is read.
  unfoldable pub after_oauth2_lookup : Sp.OAuth2Config → Result (Option OAuth2Config) → M P Turn
  unfolding create_oauth2 sync_oauth2
  after_oauth2_lookup o (err e) = fail_with P sp "GetOAuth2Failed" "Reconciling" e
  after_oauth2_lookup o (ok none) = create_oauth2 (oauth2_from_spec o)
  after_oauth2_lookup o (ok (some existing)) = sync_oauth2 existing (oauth2_from_spec o)

  unfoldable pub reconcile_application_oauth2 : Sp.OAuth2Config → M P Turn
  unfolding after_oauth2_lookup
  reconcile_application_oauth2 o = do
    r ← get_application_oauth2_config P c sp.spec.name
    after_oauth2_lookup o r
