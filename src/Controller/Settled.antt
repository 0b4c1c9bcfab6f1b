-- ===== src/Controller/Settled.antt =====
-- A reconciliation where the server has what the spec wants.
pub mod Parts
pub mod Application
