-- ===== src/Query.antt =====
-- crates/sqrld/src/query/engine.rs: the query engine and the pool that shares its results, and
-- crates/sqrld/src/server/handler.rs, which answers the messages of clients with them.
pub mod Externals
pub mod Engine
pub mod Pool
pub mod Transparent
pub mod Cached
pub mod Fresh
pub mod Again
pub mod Tests
