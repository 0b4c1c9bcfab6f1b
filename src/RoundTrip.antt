-- ===== src/RoundTrip.antt =====
-- What the operator reads back after it has written: `mapper.go` after `builder.go`, over a server
-- that keeps what it is sent.
pub mod Oauth
pub mod Application
pub mod Convergence
pub mod Steps
pub mod Settled
