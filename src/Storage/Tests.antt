-- ===== src/Storage/Tests.antt =====
-- Tests of the object storage, and its theorems on concrete worlds.
pub mod World
pub mod Store
pub mod Documents
pub mod Requests
