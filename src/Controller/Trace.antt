-- ===== src/Controller/Trace.antt =====
-- The calls that each reconciler can make.
pub mod Client
pub mod Lookup
pub mod Cluster
pub mod Parts
pub mod Application
pub mod Unchanged
pub mod Object
pub mod Entry
pub mod Instance
