-- ===== src/Api.antt =====
-- api/v1alpha1: the two custom resources.
pub mod Meta
pub mod Sp
pub mod Instance
