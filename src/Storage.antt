-- ===== src/Storage.antt =====
-- api/src/storage: the keys of objects, the stores in memory and in S3, and the lifetime of signed links.
pub mod ObjectKey
pub mod Memory
pub mod S3
