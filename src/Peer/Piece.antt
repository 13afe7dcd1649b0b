-- ===== src/Peer/Piece.antt =====
-- src-tauri/crates/oxidebt-peer/src/piece.rs: the state of the pieces that are downloaded. Locks
-- and atomics are fields. The clock is an argument.
pub mod Candidates
pub mod Manager
pub mod Synced
pub mod Reachable
pub mod Interleaved
pub mod Pick
pub mod Sizes
pub mod Requests
mod Tests
use rbitt.Prelude.{
  ℕ, zero, suc, ◌+◌, ◌-◌, ◌*◌, ◌/◌, ◌%◌, ◌^◌, min, Bool, true, false, not, ◌&&◌, ◌||◌, Option, none,
  some, List, [], ◌∷◌, ◌++◌, Bytes, ltb, leb, ◌==◌, if◌then◌else◌, length, get_or, set, replicate,
  contains,
}
use rbitt.Prelude.Maps.{Map, lookup, delete, store, has_key, set_insert, set_remove}

abbrev pub block_size : ℕ
block_size = 16384

-- In seconds.
abbrev pub request_timeout : ℕ
request_timeout = 30

pub record BlockRequest : Type 0 where
  pub piece_index : ℕ
  pub offset : ℕ
  pub len : ℕ

pub record Block : Type 0 where
  pub piece_index : ℕ
  pub offset : ℕ
  pub bytes : Bytes

-- `pending_blocks` has the time of the request.
pub record PieceState : Type 0 where
  pub blocks : Map Bytes
  pub pending_blocks : Map ℕ
  pub piece_length : ℕ

-- `PieceState::new`
abbrev pub new_piece : ℕ → PieceState
new_piece piece_length = record { blocks = []; pending_blocks = []; piece_length = piece_length }

-- `n.div_ceil(BLOCK_SIZE)`
abbrev pub block_count : ℕ → ℕ
block_count piece_length = (piece_length + (block_size - 1)) / block_size

-- `PieceState::is_complete`
unfoldable pub has_all_blocks : PieceState → Bool
has_all_blocks state = length state.blocks % 2 ^ 32 == block_count state.piece_length

-- The loop of `assemble` from block `i`, with `n` blocks left.
unfoldable pub assemble_from : ℕ → ℕ → Map Bytes → Bytes
assemble_from zero i blocks = []
assemble_from (suc n) i blocks =
    let rest = assemble_from n (i + 1) blocks in
    elim (lookup (i * block_size) blocks) [ none ↦ rest | some block ↦ block ++ rest ]

unfoldable pub assemble : PieceState → Bytes
unfolding assemble_from
assemble state = assemble_from (block_count state.piece_length) 0 state.blocks

-- The offsets of the requests that were sent too long ago.
unfoldable pub expired : ℕ → Map ℕ → List ℕ
expired now [] = []
expired now ((offset, sent_at) ∷ pending) =
    let rest = expired now pending in
    if ltb request_timeout (now - sent_at) then offset ∷ rest else rest

unfoldable pub expired_requests : ℕ → PieceState → List ℕ
unfolding expired
expired_requests now state = expired now state.pending_blocks

-- `PieceWithAvailability` and its order: the rarest first, then by index.
pub record PieceWithAvailability : Type 0 where
  pub availability : ℕ
  pub piece_index : ℕ

abbrev pub same_piece : PieceWithAvailability → PieceWithAvailability → Bool
same_piece p q = (p.availability == q.availability) && (p.piece_index == q.piece_index)

abbrev pub before : PieceWithAvailability → PieceWithAvailability → Bool
before p q =
    ltb p.availability q.availability
    || (p.availability == q.availability) && ltb p.piece_index q.piece_index

-- `BTreeSet<PieceWithAvailability>`: a list in ascending order.
abbrev pub Candidates : Type 0
Candidates = List PieceWithAvailability

unfoldable pub insert : PieceWithAvailability → Candidates → Candidates
insert p [] = p ∷ []
insert p (q ∷ ps) =
    if before p q then p ∷ q ∷ ps else if same_piece p q then q ∷ ps else q ∷ insert p ps

unfoldable pub remove : PieceWithAvailability → Candidates → Candidates
remove p [] = []
remove p (q ∷ ps) = if same_piece p q then ps else q ∷ remove p ps

-- `AvailabilityIndex`: for each piece, how many peers have it, in 32 bits.
abbrev pub AvailabilityIndex : Type 0
AvailabilityIndex = List ℕ

-- `AvailabilityIndex::new`
abbrev pub new_index : ℕ → AvailabilityIndex
new_index piece_count = replicate piece_count 0

unfoldable pub get_availability : AvailabilityIndex → ℕ → ℕ
get_availability index piece_index = get_or index piece_index 0

-- The old and the new count, and the index after the call.
unfoldable pub increment : AvailabilityIndex → ℕ → (ℕ × ℕ) × AvailabilityIndex
increment index piece_index =
    let old = get_or index piece_index 0 in
    if ltb piece_index (length index)
    then ((old, (old + 1) % 2 ^ 32), set index piece_index ((old + 1) % 2 ^ 32))
    else ((0, 0), index)

-- The exchange is tried again until no other thread comes between, and then it is one step.
unfoldable pub decrement : AvailabilityIndex → ℕ → (ℕ × ℕ) × AvailabilityIndex
decrement index piece_index =
    let old = get_or index piece_index 0 in
    if ltb piece_index (length index)
    then if old == 0 then ((0, 0), index) else ((old, old - 1), set index piece_index (old - 1))
    else ((0, 0), index)

pub record DownloadablePieces : Type 0 where
  pub candidates : Candidates
  pub in_candidates : List ℕ

-- `DownloadablePieces::new`
abbrev pub no_pieces : DownloadablePieces
no_pieces = record { candidates = []; in_candidates = [] }

unfoldable pub add_piece : DownloadablePieces → ℕ → ℕ → DownloadablePieces
unfolding insert
add_piece d piece_index availability = if contains piece_index d.in_candidates then d else record {
  candidates =
      insert (record { availability = availability; piece_index = piece_index }) d.candidates;
  in_candidates = set_insert piece_index d.in_candidates;
}

unfoldable pub remove_piece : DownloadablePieces → ℕ → ℕ → DownloadablePieces
unfolding remove
remove_piece d piece_index availability =
    if contains piece_index d.in_candidates
    then record {
      candidates =
          remove (record { availability = availability; piece_index = piece_index }) d.candidates;
      in_candidates = set_remove piece_index d.in_candidates;
    }
    else d

unfoldable pub update_piece : DownloadablePieces → ℕ → ℕ → ℕ → DownloadablePieces
unfolding insert remove
update_piece d piece_index old_avail new_avail =
    if contains piece_index d.in_candidates
    then record d {
      candidates =
          insert (record { availability = new_avail; piece_index = piece_index })
            (remove (record { availability = old_avail; piece_index = piece_index }) d.candidates);
    }
    else d
