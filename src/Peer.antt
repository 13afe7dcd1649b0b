-- ===== src/Peer.antt =====
-- The crate src-tauri/crates/oxidebt-peer: the peer wire protocol and the choice of pieces.
pub mod Error
pub mod Bitfield
pub mod Wire
pub mod Message
pub mod Handshake
pub mod Piece
pub mod Fast
pub mod Choking
