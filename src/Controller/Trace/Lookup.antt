-- ===== src/Controller/Trace/Lookup.antt =====
-- The lookups ask the rule for their own requests and for no other.
use wso2is_operator.Base.{String}
use wso2is_operator.System.Platform.{Platform, sent, call}
use wso2is_operator.System.Trace.{Rule, Only, Only-pure, Only-bind, Only-if, Only-Option}
use wso2is_operator.Wso2.Client.Transport.{Client}
use wso2is_operator.Wso2.Client.Soap.{
  get_application_oauth2_config, get_application_saml_config, fetch_application,
  get_application_by_name,
}
use wso2is_operator.Wso2.Client.Soap.Laws.{oauth_query}
use wso2is_operator.Wso2.Client.Requests.{list_request, application_request, saml_request}
use wso2is_operator.Controller.Trace.Client.{
  oauth2_result-Only, saml_result-Only, application_result-Only, no_applications-Only,
}

pub record Looks (P : Platform) (Q : Rule P) (c : Client) : Type 0 where
  pub at_list :
      (name : String) → let req = list_request c name in Only Q (call (sent req) (P.send req))
  pub at_application :
      (name : String)
      → let req = application_request c name in Only Q (call (sent req) (P.send req))
  pub at_oauth2 :
      (name : String) → let req = oauth_query c name in Only Q (call (sent req) (P.send req))
  pub at_saml :
      (issuer : String) → let req = saml_request c issuer in Only Q (call (sent req) (P.send req))

module _ (P : Platform) (Q : Rule P) (c : Client) (looks : Looks P Q c) where
  pub oauth2_lookup-Only : (name : String) → Only Q (get_application_oauth2_config P c name)
  unfolding get_application_oauth2_config
  oauth2_lookup-Only name =
      Only-bind Q _ _ (Only-bind Q _ _ (looks.at_oauth2 name) (λ _. Only-pure Q _))
        (oauth2_result-Only P Q)

  pub saml_lookup-Only : (issuer : String) → Only Q (get_application_saml_config P c issuer)
  unfolding get_application_saml_config
  saml_lookup-Only issuer =
      Only-bind Q _ _ (Only-bind Q _ _ (looks.at_saml issuer) (λ _. Only-pure Q _))
        (saml_result-Only P Q)

  pub application_lookup-Only : (name : String) → Only Q (get_application_by_name P c name)
  unfolding get_application_by_name fetch_application
  application_lookup-Only name =
      Only-bind Q _ _ (Only-bind Q _ _ (looks.at_list name) (λ _. Only-pure Q _)) (λ r.
        Only-Option Q r.error _ _ (λ e. Only-pure Q _)
          (Only-bind Q _ _ (no_applications-Only P Q r.out) (λ b. Only-if Q _ _ _ (Only-pure Q _) (
            Only-bind Q _ _ (Only-bind Q _ _ (looks.at_application name) (λ _. Only-pure Q _))
              (application_result-Only P Q)))))
