-- ===== src/Peer/Piece/Reachable.antt =====
-- src-tauri/crates/oxidebt-peer/src/piece.rs: the operations of `PieceManager` as steps that follow one
-- another, and what holds after any sequence of them. Interleaved has calls on several threads.
use rbitt.Prelude.{
  ℕ, suc, ◌≡◌, refl, ap, ◌∙◌, sym, Bool, Bool-cases, Option-cases, inl, inr, subst, ltb, arith,
  zero, ◌+◌, contains,
}
use rbitt.Prelude.Maps.{lookup, has_key}
use rbitt.Peer.Error.{ok}
use rbitt.Peer.Bitfield
use rbitt.Peer.Bitfield.{Bitfield, has_piece}
use rbitt.Peer.Bitfield.Invariant.{IsValid, set_piece-IsValid}
use rbitt.Peer.Bitfield.Build.{new-IsValid}
use rbitt.Peer.Piece.{Block, BlockRequest, PieceState, AvailabilityIndex}
use rbitt.Peer.Piece.Manager.{
  PieceManager, new, mark_piece_complete, mark_piece_failed, start_verifying, finish_verifying,
  mark_piece_verified, mark_verification_complete, follow, follow_from, update_availability,
  decrement_availability, increment_piece_availability, start_piece, add_pending_block,
  cancel_block, receive_block, cancel_piece, cleanup_stale_pieces, modify,
}
use rbitt.Peer.Piece.Synced.{
  IsSynced, add_piece-Synced, remove_piece-Synced, follow-IsSynced, Reports, increment-Reports,
  decrement-Reports, add_all-Synced,
}

-- One call of an operation that changes the state.
pub data Step (m : PieceManager) : PieceManager → Type 0 where
  completes : (index : ℕ) → Step m (mark_piece_complete m index)
  fails : (index : ℕ) → Step m (mark_piece_failed m index)
  starts_verifying : (index : ℕ) → Step m (start_verifying m index).1
  finishes_verifying : (index : ℕ) → Step m (finish_verifying m index)
  verifies : (index : ℕ) → Step m (mark_piece_verified m index)
  verifies_all : Step m (mark_verification_complete m)
  joins : (peer_bitfield : Bitfield) → Step m (update_availability m peer_bitfield)
  leaves : (peer_bitfield : Bitfield) → Step m (decrement_availability m peer_bitfield)
  announces : (index : ℕ) → Step m (increment_piece_availability m index)
  starts : (index : ℕ) → Step m (start_piece m index)
  requests : (now : ℕ) (request : BlockRequest) → Step m (add_pending_block now m request)
  cancels_request : (request : BlockRequest) → Step m (cancel_block m request)
  receives :
      (block : Block) {done : Bool} {m' : PieceManager}
      → receive_block m block ≡ ok (done, m')
      → Step m m'
  cancels : (index : ℕ) → Step m (cancel_piece m index)
  cleans : (now : ℕ) → Step m (cleanup_stale_pieces now m).1

-- The states that the operations lead to from a new manager.
pub data Reachable (piece_count piece_length total_length : ℕ) : PieceManager → Type 0 where
  begins :
      Reachable piece_count piece_length total_length (new piece_count piece_length total_length)
  goes_on :
      {m m' : PieceManager}
      → Reachable piece_count piece_length total_length m
      → Step m m'
      → Reachable piece_count piece_length total_length m'

-- What every reachable state satisfies: the set of candidates follows the availability index, our
-- bitfield is valid, and it has a bit for each piece.
pub record IsSound (m : PieceManager) : Type 0 where
  pub synced : IsSynced m
  pub bitfield : IsValid m.our_bitfield
  pub counted : m.our_bitfield.piece_count ≡ m.piece_count

-- A step that leaves what `IsSound` speaks of.
keeps :
    {m m' : PieceManager}
    → m'.availability_index ≡ m.availability_index
    → m'.downloadable ≡ m.downloadable
    → m'.our_bitfield ≡ m.our_bitfield
    → m'.piece_count ≡ m.piece_count
    → IsSound m
    → IsSound m'
keeps {m} {m'} e f g h s = record {
  synced = rw (e, f) s.synced;
  bitfield = subst IsValid (sym g) s.bitfield;
  counted = ap (λ bf. bf.piece_count) g ∙ s.counted ∙ sym h;
}

pub new-IsSound : (n len total : ℕ) → IsSound (new n len total)
unfolding new Bitfield.new
new-IsSound n len total = record {
  synced = add_all-Synced n n;
  bitfield = new-IsValid n;
  counted = refl;
}

module _ {change : AvailabilityIndex → ℕ → (ℕ × ℕ) × AvailabilityIndex}
    (reports : Reports change) where
  follow-IsSound : (m : PieceManager) (i : ℕ) → IsSound m → IsSound (follow change m i)
  unfolding follow
  follow-IsSound m i s = record {
    synced = follow-IsSynced reports m i s.synced;
    bitfield = s.bitfield;
    counted = s.counted;
  }

  follow_from-IsSound :
      (n i : ℕ) (peer_bitfield : Bitfield) (m : PieceManager)
      → IsSound m
      → IsSound (follow_from change n i peer_bitfield m)
  unfolding follow_from
  follow_from-IsSound zero i peer_bitfield m s = s
  follow_from-IsSound (suc n) i peer_bitfield m s =
      follow_from-IsSound n (i + 1) peer_bitfield _ (elim (Bool-cases (has_piece peer_bitfield i)) [
        | inl t ↦ rw t (follow-IsSound m i s)
        | inr f ↦ rw f s
      ])

piece_count-set_piece :
    (bf : Bitfield) (index : ℕ) → (Bitfield.set_piece bf index).piece_count ≡ bf.piece_count
unfolding Bitfield.set_piece
piece_count-set_piece bf index = ground arith

modify-IsSound :
    {m : PieceManager} (f : PieceState → PieceState) (i : ℕ) → IsSound m → IsSound (modify m i f)
modify-IsSound {m} f i s = elim (Option-cases (lookup i m.active_pieces)) [
  | inl none_there ↦ rw (none_there, modify) s
  | inr (state, there) ↦ rw (there, modify) (keeps refl refl refl refl s)
]

receive_block-IsSound :
    {m m' : PieceManager} (block : Block) {done : Bool}
    → receive_block m block ≡ ok (done, m')
    → IsSound m
    → IsSound m'
unfolding receive_block
receive_block-IsSound {m} {m'} block e s =
    keeps (ground arith) (ground arith) (ground arith) (ground arith) s

Step-IsSound : {m m' : PieceManager} → Step m m' → IsSound m → IsSound m'
unfolding mark_piece_complete mark_piece_failed start_verifying finish_verifying mark_piece_verified
    mark_verification_complete update_availability decrement_availability
    increment_piece_availability start_piece add_pending_block cancel_block receive_block
    cancel_piece cleanup_stale_pieces
Step-IsSound {m} (completes index) s = record {
  synced = remove_piece-Synced s.synced index;
  bitfield = set_piece-IsValid index s.bitfield;
  counted = piece_count-set_piece m.our_bitfield index ∙ s.counted;
}
Step-IsSound {m} (fails index) s = record {
  synced = add_piece-Synced s.synced index;
  bitfield = s.bitfield;
  counted = s.counted;
}
Step-IsSound {m} (starts_verifying index) s =
    elim (Bool-cases (contains index m.verifying_pieces)) [
      | inl t ↦ rw t s
      | inr f ↦ rw f (keeps refl refl refl refl s)
    ]
Step-IsSound {m} (finishes_verifying index) s = keeps refl refl refl refl s
Step-IsSound {m} (verifies index) s = keeps refl refl refl refl s
Step-IsSound {m} verifies_all s = keeps refl refl refl refl s
Step-IsSound {m} (joins peer_bitfield) s =
    follow_from-IsSound increment-Reports m.piece_count 0 peer_bitfield m s
Step-IsSound {m} (leaves peer_bitfield) s =
    follow_from-IsSound decrement-Reports m.piece_count 0 peer_bitfield m s
Step-IsSound {m} (announces index) s = elim (Bool-cases (ltb index m.piece_count)) [
  | inl t ↦ rw t (follow-IsSound increment-Reports m index s)
  | inr f ↦ rw f s
]
Step-IsSound {m} (starts index) s = elim (Bool-cases (has_key index m.active_pieces)) [
  | inl t ↦ rw t s
  | inr f ↦ rw f (keeps refl refl refl refl s)
]
Step-IsSound {m} (requests now request) s = modify-IsSound _ request.piece_index s
Step-IsSound {m} (cancels_request request) s = modify-IsSound _ request.piece_index s
Step-IsSound {m} (receives block e) s = receive_block-IsSound block e s
Step-IsSound {m} (cancels index) s = keeps refl refl refl refl s
Step-IsSound {m} (cleans now) s = keeps refl refl refl refl s

-- After any sequence of operations on a new manager, the candidates are ordered, they are the
-- indices of the candidate set, each with the availability that the index has for it, and our
-- bitfield is valid and as long as the piece count.
pub Reachable-IsSound : {n len total : ℕ} {m : PieceManager} → Reachable n len total m → IsSound m
Reachable-IsSound {n} {len} {total} begins = new-IsSound n len total
Reachable-IsSound (goes_on r step) = Step-IsSound step (Reachable-IsSound r)
