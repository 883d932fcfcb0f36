-- ===== src/Server.antt =====
-- The servers of the data base: crates/sqrld/src/server.
pub mod RateLimiter
pub mod Messages
pub mod Handler
