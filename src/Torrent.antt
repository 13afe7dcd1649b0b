-- ===== src/Torrent.antt =====
-- Torrent files, src-tauri/crates/oxidebt-torrent.
pub mod Merkle
