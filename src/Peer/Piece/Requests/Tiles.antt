-- ===== src/Peer/Piece/Requests/Tiles.antt =====
-- src-tauri/crates/oxidebt-peer/src/piece.rs: the requests for a piece cover it, without overlap.
use rbitt.Prelude.{
  ℕ, zero, suc, ◌+◌, ◌-◌, ◌≤◌, ◌<◌, ◌≡◌, refl, inl, inr, Bool-cases, Option, some, List, [], ◌∷◌,
  ltb, if◌then◌else◌, min, arith, ◌%◌, ◌^◌,
}
use rbitt.Prelude.Maps.{lookup}
use rbitt.Peer.Piece.{BlockRequest, PieceState, block_size}
use rbitt.Peer.Piece.Manager.{PieceManager, piece_size}
use rbitt.Peer.Piece.Requests.{should_request, requests_from, get_block_requests}

-- Requests for one piece that follow each other from `offset` to the end of the piece: each has a
-- byte at least and a block at most, and begins where the one before ends.
pub data Tiles (piece_index piece_len : ℕ) : ℕ → List BlockRequest → Type 0 where
  done : {offset : ℕ} → offset ≡ piece_len → Tiles piece_index piece_len offset []
  tile :
      {offset len : ℕ} {rest : List BlockRequest}
      → 0 < len
      → len ≤ block_size
      → Tiles piece_index piece_len (offset + len) rest
      → Tiles piece_index piece_len offset
          (record { piece_index = piece_index; offset = offset; len = len } ∷ rest)

-- The requests that are still to be sent.
unfoldable pub missing : Option PieceState → List BlockRequest → List BlockRequest
missing state [] = []
missing state (r ∷ rs) =
    let rest = missing state rs in if should_request state r.offset then r ∷ rest else rest

record Answer (piece_index piece_len offset : ℕ) (state : Option PieceState)
    (r : Option (List BlockRequest)) : Type 0 where
  tiles : List BlockRequest
  cover : Tiles piece_index piece_len offset tiles
  answer : r ≡ some (missing state tiles)

from-Answer :
    (fuel piece_index piece_len offset : ℕ) (state : Option PieceState)
    → offset ≤ piece_len
    → piece_len < fuel + offset
    → Answer piece_index piece_len offset state
        (requests_from fuel piece_index piece_len state offset)
unfolding requests_from missing
from-Answer zero piece_index piece_len offset state le more = absurd (omega arith)
from-Answer (suc fuel) piece_index piece_len offset state le more =
    elim (Bool-cases (ltb offset piece_len)) [
      | inl inside ↦
          let len = min block_size (piece_len - offset) in
          let rest =
            from-Answer fuel piece_index piece_len (offset + len) state (ground arith)
              (ground arith) in
          record {
            tiles = record { piece_index = piece_index; offset = offset; len = len } ∷ rest.tiles;
            cover = tile (ground arith) (omega arith) rest.cover;
            answer = rw (inside, rest.answer) refl;
          }
      | inr beyond ↦ record { tiles = []; cover = done (ground arith); answer = rw beyond refl }
    ]

-- The loop ends for a piece of any size. There are requests that cover, without gap or overlap, the
-- first bytes of the piece, as many as its size has modulo 2 ^ 32, which is the whole piece where it
-- is smaller than that. None is longer than a block, and the answer is those of them whose block is
-- neither there nor asked for.
pub get_block_requests-Tiles :
    (m : PieceManager) (piece_index : ℕ)
    → (tiles : List BlockRequest) × Tiles piece_index (piece_size m piece_index % 2 ^ 32) 0 tiles
      × (get_block_requests m piece_index
          ≡ some (missing (lookup piece_index m.active_pieces) tiles))
unfolding get_block_requests
get_block_requests-Tiles m piece_index =
    let piece_len = piece_size m piece_index % 2 ^ 32 in
    let a =
      from-Answer (piece_len + 1) piece_index piece_len 0 (lookup piece_index m.active_pieces)
        (omega arith) (omega arith) in
    (a.tiles, a.cover, a.answer)
