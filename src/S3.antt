-- ===== src/S3.antt =====
-- The S3 client of ext/aws_crt/src: the client's objects, the meta requests, and the Ruby methods.
pub mod Client
pub mod Message
pub mod Transfer
pub mod Options
pub mod Request
pub mod Ruby
pub mod Tests
