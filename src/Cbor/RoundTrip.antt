-- ===== src/Cbor/RoundTrip.antt =====
-- What encode_value of ext/aws_crt/src/cbor.rs writes, decode_value reads back.
pub mod Items
pub mod Scalars
pub mod Bignum
pub mod Leaves
pub mod Decimals
pub mod Sequences
pub mod Containers
pub mod Api
