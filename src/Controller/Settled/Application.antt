-- ===== src/Controller/Settled/Application.antt =====
-- A reconciliation of an application that is in sync asks the server and changes nothing on it.
use wso2is_operator.Base.{true, false, Option, none, some, ◌==◌, ◌||◌, ◌≡◌}
use wso2is_operator.Base.Result.{Result, ok}
use wso2is_operator.Api.Sp
use wso2is_operator.Api.Sp.{Wso2Sp}
use wso2is_operator.Wso2.App.{Application}
use wso2is_operator.Wso2.Client.Transport.{Client}
use wso2is_operator.Wso2.Client.Metadata.{fetch_sp_metadata}
use wso2is_operator.Wso2.Client.Soap.{get_application_oauth2_config, get_application_by_name}
use wso2is_operator.System.Platform.{Platform, System}
use wso2is_operator.System.Ends.{Ends}
use wso2is_operator.System.Does.{Does}
use wso2is_operator.Controller.Spec.{application_from_spec, skip_reconcile, oauth, saml}
use wso2is_operator.Controller.Changed.{app_has_changed}
use wso2is_operator.Controller.Settled.Parts.{OauthInSync, MetadataInSync}

abbrev AppInSync : Platform → Wso2Sp → Result (Option Application) → Type 0
AppInSync P sp r =
    (existing : Application) × (r ≡ ok (some existing))
    × ((app_has_changed P.sort_claims P.digest existing (application_from_spec sp)).0 ≡ false)

-- Each lookup finds what the spec wants: the OAuth and the SAML configuration, where they are looked at,
-- and the application. There is no script, and the administrator is known to see the application.
pub record InSync (P : Platform) (c : Client) (sp : Wso2Sp) : Type 0 where
  pub oauth2 :
      (o : Sp.OAuth2Config)
      → sp.spec.oauth2 ≡ some o
      → skip_reconcile oauth sp ≡ false
      → Ends (OauthInSync P o) (get_application_oauth2_config P c sp.spec.name)
  pub saml :
      (cfg : Sp.SamlConfig)
      → sp.spec.saml ≡ some cfg
      → (cfg.metadata_url == "" || skip_reconcile saml sp) ≡ false
      → Ends (MetadataInSync P c cfg) (fetch_sp_metadata P cfg.metadata_url)
  pub app : Ends (AppInSync P sp) (get_application_by_name P c sp.spec.name)
  pub no_script : sp.spec.authentication_script ≡ none
  pub seen : sp.status.admin_can_view ≡ true
