-- ===== src/Wso2/Metadata.antt =====
-- internal/wso2/saml.go: from SAML metadata to a SAML configuration.
pub mod Descriptor
pub mod Acs
pub mod Slo
pub mod Alias
pub mod Config
