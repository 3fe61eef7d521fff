-- ===== src/Cbor.antt =====
-- ext/aws_crt/src/cbor.rs: the CBOR encoder and decoder of AwsCrt::Cbor.
pub mod Value
pub mod Result
pub mod Calls
pub mod Float
pub mod Encode
pub mod Head
pub mod Read
pub mod Decode
pub mod Api
pub mod Total
pub mod Append
pub mod View
pub mod RoundTrip
pub mod Decoded
pub mod Tests
