-- ===== src/Tests.antt =====
-- Tests at concrete inputs, and the theorems applied to them.
mod Fixtures
mod Reconcilers
mod Configurations
mod Metadata
mod Parts
mod Cluster
mod Applications
mod Setup
mod InSync
