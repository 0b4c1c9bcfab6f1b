-- ===== src/Controller/Reconcile.antt =====
-- internal/controller/wso2sp_controller.go: the WSO2SP reconciler.
pub mod Oauth
pub mod Saml
pub mod Admin
pub mod Application
pub mod Delete
pub mod Entry
