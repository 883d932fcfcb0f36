-- ===== src/Cache.antt =====
-- The cache of crates/sqrld/src/cache: its values, its store, its wire protocol and its commands.
pub mod Json
pub mod Entry
pub mod Changes
pub mod Subscriptions
pub mod Store
pub mod Externals
pub mod Operations
pub mod Resp
pub mod Commands
pub mod Config
