-- ===== src/System.antt =====
-- The outside of the operator: the Kubernetes API, the network, and the monad of the code that
-- talks to them.
pub mod Kube
pub mod Http
pub mod Platform
pub mod Trace
pub mod Stored
pub mod Ends
pub mod Does
