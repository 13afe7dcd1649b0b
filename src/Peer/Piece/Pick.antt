-- ===== src/Peer/Piece/Pick.antt =====
-- src-tauri/crates/oxidebt-peer/src/piece.rs: which piece to ask a peer for. The random order of the
-- first pieces is a parameter, `shuffle`, of which only the documented behaviour is used: it keeps
-- what is in the list.
pub mod Wanted
pub mod Rarest
pub mod Sequential
use rbitt.Prelude.{
  ℕ, zero, suc, ◌+◌, ◌%◌, ◌^◌, Bool, true, false, not, ◌&&◌, Option, none, some, List, [], ◌∷◌,
  Bytes, ltb, ◌==◌, if◌then◌else◌, length, take, get_or,
}
use rbitt.Prelude.Maps.{lookup, has_key}
use rbitt.Peer.Bitfield.{Bitfield, has_piece}
use rbitt.Peer.Piece.{Candidates, PieceState, block_count}
use rbitt.Peer.Piece.Manager.{PieceManager, have_count, piece_size}

abbrev pub cold_start_threshold : ℕ
cold_start_threshold = 4

abbrev pub random_pool_size : ℕ
random_pool_size = 10

-- The piece is not marked as skipped, by a priority of 0.
abbrev pub not_skipped : Option Bytes → ℕ → Bool
not_skipped none i = true
not_skipped (some priorities) i = not (ltb i (length priorities) && get_or priorities i 0 == 0)

-- The peer has the piece, and nobody downloads it.
abbrev pub is_fresh : PieceManager → Bitfield → ℕ → Bool
is_fresh m peer_bitfield i = has_piece peer_bitfield i && not (has_key i m.active_pieces)

-- The piece is downloaded, and some block of it is neither there nor asked for.
abbrev pub state_has_room : PieceManager → ℕ → Option PieceState → Bool
state_has_room m i none = false
state_has_room m i (some state) =
    ltb ((length state.blocks + length state.pending_blocks) % 2 ^ 32)
      (block_count (piece_size m i % 2 ^ 32))

-- The peer has the piece, which has room.
abbrev pub can_help : PieceManager → Bitfield → ℕ → Bool
can_help m peer_bitfield i =
    has_piece peer_bitfield i && state_has_room m i (lookup i m.active_pieces)

-- The candidates that pass a test, and the first of them.
unfoldable pub passing : (ℕ → Bool) → Candidates → List ℕ
passing test [] = []
passing test (p ∷ ps) =
    let rest = passing test ps in if test p.piece_index then p.piece_index ∷ rest else rest

abbrev pub first? : List ℕ → Option ℕ
first? [] = none
first? (i ∷ is) = some i

abbrev pub or_else : Option ℕ → Option ℕ → Option ℕ
or_else (some i) other = some i
or_else none other = other

-- The choice among the candidates that `allowed` lets through.
unfoldable pub choose : (List ℕ → List ℕ) → (ℕ → Bool) → PieceManager → Bitfield → Option ℕ
unfolding passing
choose shuffle allowed m peer_bitfield =
    let candidates = m.downloadable.candidates in
    let fresh = passing (λ i. allowed i && is_fresh m peer_bitfield i) candidates in
    let helped = passing (λ i. allowed i && can_help m peer_bitfield i) candidates in
    let pool = take random_pool_size fresh in
    if ltb (have_count m) cold_start_threshold && not (length pool == 0)
    then first? (shuffle pool)
    else or_else (first? fresh) (first? helped)

unfoldable pub pick_piece : (List ℕ → List ℕ) → PieceManager → Bitfield → Option ℕ
pick_piece shuffle m peer_bitfield = choose shuffle (λ i. true) m peer_bitfield

unfoldable pub pick_piece_with_priorities :
    (List ℕ → List ℕ) → PieceManager → Bitfield → Option Bytes → Option ℕ
pick_piece_with_priorities shuffle m peer_bitfield piece_priorities =
    choose shuffle (not_skipped piece_priorities) m peer_bitfield

-- The first index from `i` on that passes, with `n` left.
unfoldable pub first_index : (ℕ → Bool) → ℕ → ℕ → Option ℕ
first_index test zero i = none
first_index test (suc n) i =
    let rest = first_index test n (i + 1) in if test i then some i else rest

unfoldable pub pick_piece_sequential_with_priorities :
    PieceManager → Bitfield → Option Bytes → Option ℕ
unfolding first_index
pick_piece_sequential_with_priorities m peer_bitfield piece_priorities =
    let wanted : ℕ → Bool =
      λ i. not_skipped piece_priorities i && not (has_piece m.our_bitfield i) in
    or_else (first_index (λ i. wanted i && is_fresh m peer_bitfield i) m.piece_count 0)
      (first_index (λ i. wanted i && can_help m peer_bitfield i) m.piece_count 0)

unfoldable pub pick_piece_sequential : PieceManager → Bitfield → Option ℕ
pick_piece_sequential m peer_bitfield = pick_piece_sequential_with_priorities m peer_bitfield none
