-- ===== src/Peer/Bitfield/Cached/Build.antt =====
-- Cached bitfields as they are built: they are counted, and stand for the plain ones that are
-- built in the same way.
use rbitt.Prelude.{ℕ, ◌≡◌, refl, ap, ◌∙◌, arith, All, Bytes, IsByte}
use rbitt.Prelude.Counting.{count_below, count_below-all, count_below-none}
use rbitt.Peer.Error.{ok}
use rbitt.Peer.Bitfield
use rbitt.Peer.Bitfield.{Bitfield}
use rbitt.Peer.Bitfield.Build.{new-IsValid, full-IsValid, has-new, has-full, from_bytes_ok}
use rbitt.Peer.Bitfield.Count.{count-has_piece}
use rbitt.Peer.Bitfield.Cached.{CachedBitfield, new, from_bytes, full, to_bitfield}
use rbitt.Peer.Bitfield.Cached.Refines.{IsCounted}

count-full : (n : ℕ) → Bitfield.count (Bitfield.full n) ≡ n
count-full n =
    let same : (Bitfield.full n).piece_count ≡ n =
      unfold Bitfield.full Bitfield.clear_spare_bits in refl in
    omega (
      arith,
      count-has_piece (Bitfield.full n) (full-IsValid n),
      ap (λ m. count_below m (Bitfield.has_piece (Bitfield.full n))) same,
      count_below-all n (Bitfield.has_piece (Bitfield.full n)) (λ i h. has-full n i ∙ ground arith),
    )

count-new : (n : ℕ) → Bitfield.count (Bitfield.new n) ≡ 0
count-new n = omega (
  arith,
  count-has_piece (Bitfield.new n) (new-IsValid n),
  count_below-none (Bitfield.new n).piece_count (Bitfield.has_piece (Bitfield.new n))
      (λ i h. has-new n i),
)

to_bitfield-full : (n : ℕ) → to_bitfield (full n) ≡ Bitfield.full n
unfolding full Bitfield.full Bitfield.clear_spare_bits to_bitfield
to_bitfield-full n = refl

to_bitfield-new : (n : ℕ) → to_bitfield (new n) ≡ Bitfield.new n
unfolding new Bitfield.new to_bitfield
to_bitfield-new n = refl

-- `new` and `full` of any count are counted, and stand for the plain `new` and `full`.
pub built-IsCounted :
    (n : ℕ)
    → IsCounted (new n)
      × IsCounted (full n)
      × (to_bitfield (new n) ≡ Bitfield.new n)
      × (to_bitfield (full n) ≡ Bitfield.full n)
built-IsCounted n = (
  record {
    valid = rw (to_bitfield-new n) (new-IsValid n);
    counted = rw (to_bitfield-new n, count-new n) (unfold new in refl);
  },
  record {
    valid = rw (to_bitfield-full n) (full-IsValid n);
    counted = rw (to_bitfield-full n, count-full n) (unfold full in refl);
  },
  to_bitfield-new n,
  to_bitfield-full n,
)

counted-from_bytes :
    (bytes : Bytes) (n : ℕ) {bf : CachedBitfield}
    → from_bytes bytes n ≡ ok bf
    → (Bitfield.from_bytes bytes n ≡ ok (to_bitfield bf))
      × (bf.cached_count ≡ Bitfield.count (to_bitfield bf))
unfolding from_bytes Bitfield.from_bytes Bitfield.clear_spare_bits Bitfield.count to_bitfield
counted-from_bytes bytes n h = ground arith

-- Where `from_bytes` accepts bytes, so does the plain `from_bytes`, with the same bits, and the
-- counter is right.
pub from_bytes-refines :
    (bytes : Bytes) (n : ℕ) {bf : CachedBitfield}
    → All IsByte bytes
    → from_bytes bytes n ≡ ok bf
    → IsCounted bf × (Bitfield.from_bytes bytes n ≡ ok (to_bitfield bf))
from_bytes-refines bytes n bs h =
    let (plain, counted) = counted-from_bytes bytes n h in
    (record { valid = (from_bytes_ok bytes n bs plain).1.0; counted = counted }, plain)
