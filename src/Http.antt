-- ===== src/Http.antt =====
-- ext/aws_crt/src/http.rs: HTTP requests over a pool of connections.
pub mod State
pub mod Callbacks
pub mod Build
pub mod Run
pub mod Trace
pub mod Tests
pub mod Fresh
