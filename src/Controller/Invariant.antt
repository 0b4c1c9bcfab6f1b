-- ===== src/Controller/Invariant.antt =====
-- What reconciliations keep of the object in the cluster.
pub mod Holding
pub mod Object
pub mod Reach
pub mod Orphan
