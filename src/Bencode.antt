-- ===== src/Bencode.antt =====
-- The crate src-tauri/crates/oxidebt-bencode: bencoded values, their encoder and their decoder.
pub mod Text
pub mod Value
pub mod Encode
pub mod Cursor
pub mod Scalar
pub mod Decode
pub mod Encodable
pub mod Canonical
mod Tests
