-- ===== src/Pool.antt =====
-- ext/aws_crt/src/pool.rs: AwsCrt::Http::ConnectionPool, from its Ruby arguments to the options of the
-- connection manager, and from the answer of http.rs to the Ruby value.
pub mod Endpoint
pub mod Options
pub mod Object
pub mod Reply
pub mod Streamed
pub mod Shared
pub mod Tests
