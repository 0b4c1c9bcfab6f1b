-- ===== src/Wso2/Map.antt =====
-- internal/wso2/mapper.go: from the replies to the operator's own view. A Go panic, where a pointer is
-- nil or an index is out of range, is a value of `Exit`.
pub mod Application
pub mod Oauth
pub mod Saml
