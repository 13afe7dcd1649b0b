-- ===== src/Tracker.antt =====
-- The trackers, src-tauri/crates/oxidebt-tracker.
pub mod Response
pub mod Udp
