-- ===== src/Dht.antt =====
-- The distributed hash table, src-tauri/crates/oxidebt-dht.
pub mod Node
pub mod Bucket
pub mod Routing
pub mod Message
mod Tests
