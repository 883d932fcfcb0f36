-- ===== src/Storage/Xml.antt =====
-- crates/sqrld/src/storage/xml.rs
pub mod Escape
pub mod Common
pub mod Listings
pub mod Uploads
pub mod Settings
pub mod Reader
pub mod Moves
pub mod Spelling
pub mod Listed
pub mod Uploaded
pub mod Configured
pub mod Granted
