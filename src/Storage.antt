-- ===== src/Storage.antt =====
-- services/cache/file_cache.py: the store of blobs on disk.
pub mod FileCache
pub mod Blobs
pub mod Store
