-- ===== src/Cache.antt =====
-- The caches between the peers and the disk, src-tauri/crates/oxidebt-cache.
pub mod Key
pub mod Lru
pub mod Ghost
pub mod PieceCache
pub mod BlockCache
