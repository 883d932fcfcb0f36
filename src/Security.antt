-- ===== src/Security.antt =====
-- crates/sqrld/src/security/mod.rs: comparison in constant time and the keys of objects. The hash of
-- the crate sha2, as a text of hexadecimal digits, is a parameter.
pub mod Bits
pub mod Compare
pub mod Keys
pub mod Equal
pub mod Traversal
mod Tests
