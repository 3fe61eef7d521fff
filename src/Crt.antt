-- ===== src/Crt.antt =====
-- The objects of the CRT that ext/aws_crt/src holds by pointers, shared by its modules.
pub mod Resource
pub mod Action
pub mod Runs
pub mod Yields
pub mod Fails
pub mod Gives
