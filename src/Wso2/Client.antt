-- ===== src/Wso2/Client.antt =====
-- internal/wso2/client.go: the HTTP client. `Transport` has the calls that the others go through.
pub mod Transport
pub mod Scim
pub mod Soap
pub mod Requests
pub mod Metadata
