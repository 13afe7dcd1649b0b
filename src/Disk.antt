-- ===== src/Disk.antt =====
-- The disk, src-tauri/crates/oxidebt-disk.
pub mod Error
pub mod Path
pub mod Files
pub mod Storage
pub mod Manager
pub mod Coalescer
pub mod IoQueue
pub mod Caching
mod Tests
