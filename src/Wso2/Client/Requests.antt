-- ===== src/Wso2/Client/Requests.antt =====
-- internal/wso2/client.go: the requests of the lookups.
use wso2is_operator.Base.{String, ◌<>◌, none}
use wso2is_operator.System.Http
use wso2is_operator.System.Http.{Payload, Response, RequestOptions, HttpRequest}
use wso2is_operator.Wso2.Build.Application.{build_get_application}
use wso2is_operator.Wso2.Build.Saml.{build_get_saml_application}
use wso2is_operator.Wso2.Client.Transport.{Client, new_request, json_request}
use wso2is_operator.Wso2.Client.Soap.Laws.{soap_post}
use wso2is_operator.Wso2.Client.Soap.{application_endpoint, saml_endpoint}

abbrev pub list_request : Client → String → HttpRequest
unfolding new_request json_request
list_request c name =
    new_request c "GET"
      ("/t/" <> (c.tenant <> ("/api/server/v1/applications?filter=name+eq+" <> name))) none
      json_request

abbrev pub application_request : Client → String → HttpRequest
application_request c name =
    soap_post c "urn:getApplication" application_endpoint
      (Http.get_application (build_get_application name))

abbrev pub saml_request : Client → String → HttpRequest
saml_request c issuer =
    soap_post c "urn:getServiceProvider" saml_endpoint
      (Http.get_service_provider (build_get_saml_application issuer))
