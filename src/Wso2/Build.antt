-- ===== src/Wso2/Build.antt =====
-- internal/wso2/builder.go: the requests that the client sends.
pub mod Application
pub mod Oauth
pub mod Saml
pub mod Scim
