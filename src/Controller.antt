-- ===== src/Controller.antt =====
-- internal/controller: the reconcilers.
pub mod Spec
pub mod Changed
pub mod Phase
pub mod Secrets
pub mod Reconcile
pub mod Condition
pub mod Instance
pub mod Trace
pub mod Invariant
pub mod Liveness
pub mod Settled
