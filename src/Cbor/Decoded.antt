-- ===== src/Cbor/Decoded.antt =====
-- What the decoder of ext/aws_crt/src/cbor.rs can return, and that it can be encoded again.
pub mod Numbers
pub mod Shape
pub mod Keys
pub mod Readers
pub mod Leaves
pub mod Values
pub mod Again
