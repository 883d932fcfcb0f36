-- ===== src/Storage/Routes.antt =====
-- crates/sqrld/src/storage/routes: the handlers of requests.
pub mod Bucket
pub mod Range
pub mod Parts
pub mod Multipart
pub mod Object
pub mod Deleting
pub mod Guarded
pub mod Ordered
pub mod RoundTrip
