-- ===== src/Peer/Error.antt =====
-- src-tauri/crates/oxidebt-peer/src/error.rs: `PeerError`, the variants that the modelled code
-- returns, with the value that the source formats into the message in place of the text.
use rbitt.Prelude.{ℕ, String}

pub data PeerError : Type 0 where
  invalid_handshake_length : ℕ → PeerError
  invalid_handshake_pstrlen : ℕ → PeerError
  protocol_mismatch : PeerError
  invalid_message : String → PeerError
  unknown_message_id : ℕ → PeerError
  message_too_large : ℕ → PeerError
  invalid_piece_index : ℕ → PeerError
  bitfield_length_mismatch : ℕ → ℕ → PeerError

-- `Result<A, PeerError>`
pub data Result {ℓ} (A : Type ℓ) : Type ℓ where
  ok : A → Result A
  err : PeerError → Result A

infixl 5 ◌>>=◌
abbrev pub ◌>>=◌ {ℓ κ} : {A : Type ℓ} {B : Type κ} → Result A → (A → Result B) → Result B
ok a >>= f = f a
err e >>= f = err e
