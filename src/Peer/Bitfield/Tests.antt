-- ===== src/Peer/Bitfield/Tests.antt =====
-- Runs of the bitfields on concrete inputs, and their theorems at such inputs.
use rbitt.Prelude.{
  ◌≢◌, ◌⊎◌, ◌≡◌, refl, ◌&&◌, ◌||◌, [], ◌∷◌, Bytes, IsByte, All, ltb, ◌==◌, length, arith,
}
use rbitt.Prelude.Counting.{count_below}
use rbitt.Peer.Error.{ok, err, bitfield_length_mismatch}
use rbitt.Peer.Bitfield.{
  Bitfield, byte_count, from_bytes, full, has_piece, set_piece, clear_piece, count, missing_pieces,
  clear_spare_bits,
}
use rbitt.Peer.Bitfield.Invariant.{IsValid, has-set_piece, changes-IsValid}
use rbitt.Peer.Bitfield.Build.{Holds, from_bytes-IsValid, from_bytes_ok}
use rbitt.Peer.Bitfield.Count.{count-has_piece}
use rbitt.Peer.Bitfield.Cached
use rbitt.Peer.Bitfield.Cached.{CachedBitfield, to_bitfield}
use rbitt.Peer.Bitfield.Cached.Refines.{IsCounted, set_piece-refines}
use rbitt.Peer.Bitfield.Cached.Build.{from_bytes-refines}

-- Ten pieces; the six spare bits of the second byte are set in the input.
abbrev ten : Bytes
ten = 0xa5 ∷ 0xff ∷ []

abbrev ten_pieces : Bitfield
ten_pieces = record { bits = 0xa5 ∷ 0xc0 ∷ []; piece_count = 10 }

ten-from_bytes : from_bytes ten 10 ≡ ok ten_pieces
unfolding from_bytes clear_spare_bits
ten-from_bytes = refl

refuses_length : from_bytes ten 17 ≡ err (bitfield_length_mismatch 3 2)
unfolding from_bytes
refuses_length = refl

ten_missing : missing_pieces (full 10) ten_pieces ≡ 1 ∷ 3 ∷ 4 ∷ 6 ∷ []
unfolding missing_pieces full clear_spare_bits has_piece
ten_missing = refl

ten-IsBytes : All IsByte ten
ten-IsBytes = (omega arith, (omega arith, tt))

ten_pieces-IsValid : IsValid ten_pieces
ten_pieces-IsValid = (from_bytes_ok ten 10 ten-IsBytes ten-from_bytes).1.0

has-set_piece_example :
    has_piece (set_piece ten_pieces 3) 4 ≡ (ltb 3 10 && 3 == 4 || has_piece ten_pieces 4)
has-set_piece_example = has-set_piece 3 4 ten_pieces-IsValid

changes-IsValid_example : IsValid (set_piece ten_pieces 3) × IsValid (clear_piece ten_pieces 3)
changes-IsValid_example = changes-IsValid 3 ten_pieces-IsValid

from_bytes-IsValid_example :
    (length ten ≢ byte_count 10)
      × (from_bytes ten 10 ≡ err (bitfield_length_mismatch (byte_count 10) (length ten)))
    ⊎ (length ten ≡ byte_count 10)
      × ((bf : Bitfield) × (from_bytes ten 10 ≡ ok bf) × Holds 10 ten bf)
from_bytes-IsValid_example = from_bytes-IsValid ten 10 ten-IsBytes

count-has_piece_example : count ten_pieces ≡ count_below 10 (has_piece ten_pieces)
count-has_piece_example = count-has_piece ten_pieces ten_pieces-IsValid

abbrev ten_cached : CachedBitfield
ten_cached = record { bits = 0xa5 ∷ 0xc0 ∷ []; piece_count = 10; cached_count = 6 }

ten_cached-from_bytes : Cached.from_bytes ten 10 ≡ ok ten_cached
unfolding Cached.from_bytes count_below
ten_cached-from_bytes = refl

ten_cached-IsCounted : IsCounted ten_cached
ten_cached-IsCounted = (from_bytes-refines ten 10 ten-IsBytes ten_cached-from_bytes).0

set_piece-refines_example :
    (to_bitfield (Cached.set_piece ten_cached 3) ≡ set_piece (to_bitfield ten_cached) 3)
    × IsCounted (Cached.set_piece ten_cached 3)
set_piece-refines_example = set_piece-refines ten_cached 3 ten_cached-IsCounted
