-- ===== src/Controller/Liveness.antt =====
-- Reconciliations return, and make sure that there is another one.
pub mod Answers
pub mod Client
pub mod Lookups
pub mod Cluster
pub mod Parts
pub mod Application
pub mod Object
pub mod Instance
