-- ===== src/Meta.antt =====
-- The metadata authority: internal/meta.
pub mod Model
pub mod ObjectLock
pub mod Worker
pub mod Repository
pub mod Quota
pub mod Multipart
pub mod Objects
pub mod Buckets
pub mod Listing
pub mod Keyspace
pub mod Samples
