-- ===== src/Storage.antt =====
-- crates/sqrld/src/storage: the object storage with the interface of S3.
pub mod Codes
pub mod Error
pub mod Externals
pub mod Types
pub mod Xml
pub mod Reported
pub mod Actions
pub mod Services
pub mod Responses
pub mod Names
pub mod Routes
pub mod Files
pub mod Filesystem
pub mod Tests
