-- ===== src/Peer/Piece/Manager.antt =====
-- src-tauri/crates/oxidebt-peer/src/piece.rs, `PieceManager`: one function for each operation, from
-- the state before to the state after.
use rbitt.Prelude.{
  ℕ, zero, suc, ◌+◌, ◌-◌, ◌%◌, ◌^◌, Bool, true, false, ◌&&◌, Option, none, some, List, [], ◌∷◌,
  Bytes, ltb, leb, ◌==◌, if◌then◌else◌, length, contains,
}
use rbitt.Prelude.Maps.{Map, lookup, delete, store, has_key, set_insert, set_remove}
use rbitt.Peer.Error.{Result, ok, err, invalid_piece_index}
use rbitt.Peer.Bitfield
use rbitt.Peer.Bitfield.{Bitfield, has_piece}
use rbitt.Peer.Piece.{
  BlockRequest, Block, PieceState, new_piece, has_all_blocks, assemble, expired_requests,
  AvailabilityIndex, new_index, get_availability, increment, decrement, DownloadablePieces,
  no_pieces, add_piece, remove_piece, update_piece,
}

pub record PieceManager : Type 0 where
  pub piece_count : ℕ
  pub piece_length : ℕ
  pub total_length : ℕ
  pub our_bitfield : Bitfield
  pub active_pieces : Map PieceState
  pub availability_index : AvailabilityIndex
  pub downloadable : DownloadablePieces
  pub completed_pieces : List ℕ
  pub verified_pieces : List ℕ
  pub verification_complete : Bool
  pub verifying_pieces : List ℕ

-- The loop of `new` over the first `n` indices.
unfoldable pub add_all : ℕ → DownloadablePieces
add_all zero = no_pieces
add_all (suc n) = add_piece (add_all n) n 0

unfoldable pub new : ℕ → ℕ → ℕ → PieceManager
unfolding add_all
new piece_count piece_length total_length = record {
  piece_count = piece_count;
  piece_length = piece_length;
  total_length = total_length;
  our_bitfield = Bitfield.new piece_count;
  active_pieces = [];
  availability_index = new_index piece_count;
  downloadable = add_all piece_count;
  completed_pieces = [];
  verified_pieces = [];
  verification_complete = false;
  verifying_pieces = [];
}

unfoldable pub is_complete : PieceManager → Bool
is_complete m = Bitfield.is_complete m.our_bitfield

unfoldable pub have_count : PieceManager → ℕ
have_count m = Bitfield.count m.our_bitfield

unfoldable pub mark_piece_complete : PieceManager → ℕ → PieceManager
mark_piece_complete m index =
    let avail = get_availability m.availability_index index in
    record m {
      our_bitfield = Bitfield.set_piece m.our_bitfield index;
      completed_pieces = set_insert index m.completed_pieces;
      active_pieces = delete index m.active_pieces;
      verifying_pieces = set_remove index m.verifying_pieces;
      downloadable = remove_piece m.downloadable index avail;
    }

unfoldable pub mark_piece_failed : PieceManager → ℕ → PieceManager
mark_piece_failed m index =
    let avail = get_availability m.availability_index index in
    record m {
      active_pieces = delete index m.active_pieces;
      verifying_pieces = set_remove index m.verifying_pieces;
      downloadable = add_piece m.downloadable index avail;
    }

unfoldable pub start_verifying : PieceManager → ℕ → Bool × PieceManager
start_verifying m index =
    if contains index m.verifying_pieces
    then (false, m)
    else (true, record m { verifying_pieces = set_insert index m.verifying_pieces })

unfoldable pub finish_verifying : PieceManager → ℕ → PieceManager
finish_verifying m index = record m { verifying_pieces = set_remove index m.verifying_pieces }

unfoldable pub mark_piece_verified : PieceManager → ℕ → PieceManager
mark_piece_verified m index = record m { verified_pieces = set_insert index m.verified_pieces }

unfoldable pub mark_verification_complete : PieceManager → PieceManager
mark_verification_complete m = record m { verification_complete = true }

unfoldable pub is_piece_verified : PieceManager → ℕ → Bool
is_piece_verified m index =
    if m.verification_complete then true else contains index m.verified_pieces

unfoldable pub verified_count : PieceManager → ℕ
verified_count m = if m.verification_complete then m.piece_count else length m.verified_pieces

-- A change of the index that `DownloadablePieces::update_availability` follows.
unfoldable pub follow :
    (AvailabilityIndex → ℕ → (ℕ × ℕ) × AvailabilityIndex) → PieceManager → ℕ → PieceManager
follow change m i =
    let ((old_avail, new_avail), index) = change m.availability_index i in
    record m {
      availability_index = index;
      downloadable = update_piece m.downloadable i old_avail new_avail;
    }

-- The loop over the indices from `i` on, with `n` left.
unfoldable pub follow_from :
    (AvailabilityIndex → ℕ → (ℕ × ℕ) × AvailabilityIndex)
    → ℕ
    → ℕ
    → Bitfield
    → PieceManager
    → PieceManager
follow_from change zero i peer_bitfield m = m
follow_from change (suc n) i peer_bitfield m =
    follow_from change n (i + 1) peer_bitfield
      (if has_piece peer_bitfield i then follow change m i else m)

unfoldable pub update_availability : PieceManager → Bitfield → PieceManager
update_availability m peer_bitfield = follow_from increment m.piece_count 0 peer_bitfield m

unfoldable pub decrement_availability : PieceManager → Bitfield → PieceManager
decrement_availability m peer_bitfield = follow_from decrement m.piece_count 0 peer_bitfield m

unfoldable pub increment_piece_availability : PieceManager → ℕ → PieceManager
increment_piece_availability m index =
    if ltb index m.piece_count then follow increment m index else m

-- The first test keeps `piece_count - 1` from underflow.
unfoldable pub piece_size : PieceManager → ℕ → ℕ
piece_size m index =
    if m.piece_count == 0
    then 0
    else if ltb index (m.piece_count - 1)
    then m.piece_length
    else let remainder = m.total_length % m.piece_length in
      if remainder == 0 then m.piece_length else remainder

-- `entry(piece_index).or_insert_with(..)`
unfoldable pub start_piece : PieceManager → ℕ → PieceManager
start_piece m piece_index = if has_key piece_index m.active_pieces then m else record m {
  active_pieces = store piece_index (new_piece (piece_size m piece_index % 2 ^ 32)) m.active_pieces;
}

-- A change of the state of an active piece.
abbrev pub modify : PieceManager → ℕ → (PieceState → PieceState) → PieceManager
modify m piece_index f = elim (lookup piece_index m.active_pieces) [
  | none ↦ m
  | some state ↦ record m { active_pieces = store piece_index (f state) m.active_pieces }
]

unfoldable pub add_pending_block : ℕ → PieceManager → BlockRequest → PieceManager
add_pending_block now m request =
    modify m request.piece_index
      λ state. record state { pending_blocks = store request.offset now state.pending_blocks }

unfoldable pub cancel_block : PieceManager → BlockRequest → PieceManager
cancel_block m request =
    modify m request.piece_index
      λ state. record state { pending_blocks = delete request.offset state.pending_blocks }

unfoldable pub receive_block : PieceManager → Block → Result (Bool × PieceManager)
receive_block m block = elim (lookup block.piece_index m.active_pieces) [
  | none ↦ err (invalid_piece_index block.piece_index)
  | some state ↦
      let state' : PieceState = record {
        blocks = store block.offset block.bytes state.blocks;
        pending_blocks = delete block.offset state.pending_blocks;
        piece_length = state.piece_length;
      } in
      ok (
        has_all_blocks state',
        record m { active_pieces = store block.piece_index state' m.active_pieces },
      )
]

unfoldable pub cancel_piece : PieceManager → ℕ → PieceManager
cancel_piece m piece_index = record m { active_pieces = delete piece_index m.active_pieces }

unfoldable pub assemble_piece : PieceManager → ℕ → Option Bytes
assemble_piece m piece_index = elim (lookup piece_index m.active_pieces) [
  | none ↦ none
  | some state ↦ some (assemble state)
]

-- The filter of `get_stale_pieces`, with the clock read once.
unfoldable pub stale : ℕ → Map PieceState → List ℕ
stale now [] = []
stale now ((idx, state) ∷ active) =
    let rest = stale now active in
    if length (expired_requests now state) == 0 then rest else idx ∷ rest

unfoldable pub get_stale_pieces : ℕ → PieceManager → List ℕ
get_stale_pieces now m = stale now m.active_pieces

unfoldable pub delete_all : List ℕ → Map PieceState → Map PieceState
delete_all [] active = active
delete_all (idx ∷ idxs) active = delete_all idxs (delete idx active)

unfoldable pub cleanup_stale_pieces : ℕ → PieceManager → List ℕ × PieceManager
cleanup_stale_pieces now m =
    let idxs = get_stale_pieces now m in
    (idxs, record m { active_pieces = delete_all idxs m.active_pieces })

-- The count of a valid bitfield is at most `piece_count`, so that nothing is lost at 0.
unfoldable pub is_endgame : PieceManager → Bool
is_endgame m = let remaining = m.piece_count - have_count m in leb remaining 10 && ltb 0 remaining
