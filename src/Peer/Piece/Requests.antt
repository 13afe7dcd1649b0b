-- ===== src/Peer/Piece/Requests.antt =====
-- src-tauri/crates/oxidebt-peer/src/piece.rs: the requests for the blocks of a piece. The loop of
-- `get_block_requests` runs on fuel: each round moves the offset on by one at least, so that a unit
-- for each byte of the piece and one more is enough.
pub mod Tiles
use rbitt.Prelude.{
  ℕ, zero, suc, ◌+◌, ◌-◌, ◌%◌, ◌^◌, Bool, true, false, not, ◌&&◌, Option, none, some, List, [], ◌∷◌,
  ◌++◌, ltb, if◌then◌else◌, min,
}
use rbitt.Prelude.Maps.{Map, lookup, has_key}
use rbitt.Peer.Piece.{BlockRequest, PieceState, block_size}
use rbitt.Peer.Piece.Manager.{PieceManager, piece_size}

-- The block is neither there nor asked for.
abbrev pub should_request : Option PieceState → ℕ → Bool
should_request none offset = true
should_request (some s) offset =
    not (has_key offset s.blocks) && not (has_key offset s.pending_blocks)

-- The loop of `get_block_requests`; no answer if the fuel runs out.
unfoldable pub requests_from : ℕ → ℕ → ℕ → Option PieceState → ℕ → Option (List BlockRequest)
requests_from zero piece_index piece_len state offset = none
requests_from (suc fuel) piece_index piece_len state offset =
    let len = min block_size (piece_len - offset) in
    let rest = requests_from fuel piece_index piece_len state (offset + len) in
    let request : BlockRequest = record { piece_index = piece_index; offset = offset; len = len } in
    if ltb offset piece_len
    then elim rest [
      | none ↦ none
      | some requests ↦ some (if should_request state offset then request ∷ requests else requests)
    ]
    else some []

unfoldable pub get_block_requests : PieceManager → ℕ → Option (List BlockRequest)
get_block_requests m piece_index =
    let piece_len = piece_size m piece_index % 2 ^ 32 in
    requests_from (piece_len + 1) piece_index piece_len (lookup piece_index m.active_pieces) 0

-- `u32` subtraction wraps around below 0.
unfoldable pub pending_requests : ℕ → ℕ → Map ℕ → List BlockRequest
pending_requests piece_index piece_length [] = []
pending_requests piece_index piece_length ((offset, sent_at) ∷ pending) =
    let remaining = (piece_length + 2 ^ 32 - offset) % 2 ^ 32 in
    record { piece_index = piece_index; offset = offset; len = min block_size remaining }
    ∷ pending_requests piece_index piece_length pending

unfoldable pub endgame_requests : Map PieceState → List BlockRequest
endgame_requests [] = []
endgame_requests ((piece_index, state) ∷ active) =
    pending_requests piece_index state.piece_length state.pending_blocks ++ endgame_requests active

unfoldable pub get_endgame_requests : PieceManager → List BlockRequest
get_endgame_requests m = endgame_requests m.active_pieces
