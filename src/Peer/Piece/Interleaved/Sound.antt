-- ===== src/Peer/Piece/Interleaved/Sound.antt =====
-- What holds after any steps on several threads.
use rbitt.Prelude.{ℕ, ◌≡◌, none, some, length}
use rbitt.Prelude.Maps.{Map, lookup}
use rbitt.Peer.Bitfield.Invariant.{IsValid}
use rbitt.Peer.Bitfield
use rbitt.Peer.Piece.{AvailabilityIndex, get_availability}
use rbitt.Peer.Piece.Synced.{Synced}
use rbitt.Peer.Piece.Interleaved.{Shared}

-- The count of a piece that the candidates know.
abbrev known : Map (ℕ × ℕ) → AvailabilityIndex → ℕ → ℕ
known unsettled index j = elim (lookup j unsettled) [
  | some counts ↦ counts.0
  | none ↦ get_availability index j
]

record IsShared (s : Shared) : Type 0 where
  visible : AvailabilityIndex
  same_length : length visible ≡ length s.manager.availability_index
  synced : Synced visible s.manager.downloadable
  agrees : (j : ℕ) → get_availability visible j ≡ known s.unsettled s.manager.availability_index j
  current :
      (j : ℕ) (counts : ℕ × ℕ)
      → lookup j s.unsettled ≡ some counts
      → counts.1 ≡ get_availability s.manager.availability_index j
  bitfield : IsValid s.manager.our_bitfield
  counted : s.manager.our_bitfield.piece_count ≡ s.manager.piece_count
