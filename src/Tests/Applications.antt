-- ===== src/Tests/Applications.antt =====
-- An application with a step, and what is read back of it.
use wso2is_operator.Base.{String, true, false, List, [], ◌∷◌, some, pos}
use wso2is_operator.Api.Sp
use wso2is_operator.Api.Sp.{Wso2Sp}
use wso2is_operator.Wso2.App.{Claim, Application, zero_oauth2_config, zero_saml_config}
use wso2is_operator.Wso2.Json.{Json}
use wso2is_operator.Controller.Spec.{application_from_spec}
use wso2is_operator.RoundTrip.Settled.{wanted}
use wso2is_operator.Tests.Fixtures.{portal}

abbrev step_one : Sp.AuthenticationStep
step_one = record {
  step = pos 1;
  local_authenticators = "BasicAuthenticator" ∷ [];
  federated_idp = "corp";
  federated_authenticator = "OpenIDConnectAuthenticator";
}

abbrev federated : Wso2Sp
federated = record portal {
  spec = record portal.spec {
    claims = record { uri = "http://wso2.org/claims/email"; mandatory = true } ∷ [];
    authentication_steps = some (step_one ∷ []);
    saml = some (record {
      metadata_url = "";
      enable_attribute_profile = false;
      include_attributes_by_default = false;
    });
    oauth2 = some (record {
      callback_url = "https://a/cb";
      grant_types = some ("code" ∷ []);
      pkce_mandatory = true;
      pkce_plain = false;
      public_client = false;
      token_binding = "";
      audiences = [];
      scope_validators = [];
      refresh_token_expiry = pos 86400;
      access_token_expiry = pos 3600;
    });
  };
}

-- What is sent: the wanted application, with the credentials.
abbrev federated_sent : Application
unfolding application_from_spec
federated_sent = record (wanted federated "") {
  oauth2 = some zero_oauth2_config;
  saml = some zero_saml_config;
}

abbrev flat_digest : Json → String
flat_digest _ = ""

abbrev in_order : List Claim → List Claim
in_order cs = cs
