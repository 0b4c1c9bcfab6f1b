-- ===== src/Wso2/Soap.antt =====
-- internal/wso2/soap.go: the data of the SOAP calls, one record for each struct. The XML element
-- names in the struct tags are `encoding/xml`'s, which is not modelled.
pub mod Envelope
pub mod Provider
pub mod ProviderReply
pub mod Oauth
pub mod Saml
