-- ===== src/Wso2.antt =====
-- internal/wso2: the client of WSO2 Identity Server.
pub mod App
pub mod Scim
pub mod Soap
pub mod Metadata
pub mod Build
pub mod Map
pub mod Json
pub mod Client
