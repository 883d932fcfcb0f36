-- ===== src/Sql.antt =====
-- SQL texts made from what clients send: crates/sqrld/src/db/sanitize.rs, the dialects of
-- crates/sqrld/src/db/backend.rs and the compilers of crates/sqrld/src/query.
pub mod Sanitize
pub mod Dialect
pub mod Filter
pub mod Structured
pub mod Scan
pub mod Fields
pub mod Safety
pub mod Names
pub mod Literals
pub mod Agreement
pub mod Compiler
mod Tests
