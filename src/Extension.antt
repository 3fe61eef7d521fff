-- ===== src/Extension.antt =====
-- The entry of the native extension, ext/aws_crt/src/lib.rs, with the registrations it calls: the
-- modules and classes that it makes in Ruby, and the classes that the other files look up or keep.
pub mod Vm
pub mod World
pub mod Classes
pub mod Facts
pub mod Inherits
pub mod CborClasses
pub mod HttpClasses
pub mod Registered
pub mod Tests
