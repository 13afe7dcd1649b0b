-- ===== src/Peer/Bitfield/Cached/Refines.antt =====
-- A cached bitfield implements a plain one: its operations are those of `Bitfield` on the bits, and
-- its counter is the count that `Bitfield` computes.
use rbitt.Prelude.{
  ℕ, ◌+◌, ◌-◌, ◌≤◌, ◌<◌, ◌≡◌, refl, sym, ap, ◌∙◌, true, false, arith, IsByte, get_or, All-get_or,
  set-get_or, ◌/◌, ◌%◌,
}
use rbitt.Prelude.Bits.{set_bit-of-test, clear_bit-of-test}
use rbitt.Prelude.Counting.{count_below, count_below-turn_on}
use rbitt.Peer.Bitfield
use rbitt.Peer.Bitfield.{Bitfield, byte_count}
use rbitt.Peer.Bitfield.Invariant.{
  IsValid, set_piece-IsValid, clear_piece-IsValid, has-set_piece, has-clear_piece,
}
use rbitt.Peer.Bitfield.Count.{count-has_piece}
use rbitt.Peer.Bitfield.Cached.{CachedBitfield, has_piece, set_piece, clear_piece, to_bitfield}

-- The bits are a valid bitfield, and the counter is right.
pub record IsCounted (bf : CachedBitfield) : Type 0 where
  pub valid : IsValid (to_bitfield bf)
  pub counted : bf.cached_count ≡ Bitfield.count (to_bitfield bf)

-- Setting a missing piece raises the plain count by one, and clearing a present one lowers it.
count-set_piece :
    (bf : Bitfield) (index : ℕ)
    → IsValid bf
    → index < bf.piece_count
    → Bitfield.has_piece bf index ≡ false
    → Bitfield.count (Bitfield.set_piece bf index) ≡ Bitfield.count bf + 1
count-set_piece bf index v h missing =
    let after = Bitfield.set_piece bf index in
    let same : after.piece_count ≡ bf.piece_count = unfold Bitfield.set_piece in ground arith in
    omega (
      arith,
      count-has_piece bf v,
      count-has_piece after (set_piece-IsValid index v),
      ap (λ n. count_below n (Bitfield.has_piece after)) same,
      count_below-turn_on bf.piece_count index (Bitfield.has_piece bf) (Bitfield.has_piece after) h
          missing (has-set_piece index index v ∙ ground arith)
          (λ i ne. has-set_piece index i v ∙ ground arith),
    )

count-clear_piece :
    (bf : Bitfield) (index : ℕ)
    → IsValid bf
    → index < bf.piece_count
    → Bitfield.has_piece bf index ≡ true
    → Bitfield.count (Bitfield.clear_piece bf index) + 1 ≡ Bitfield.count bf
count-clear_piece bf index v h present =
    let after = Bitfield.clear_piece bf index in
    let same : after.piece_count ≡ bf.piece_count = unfold Bitfield.clear_piece in ground arith in
    omega (
      arith,
      count-has_piece bf v,
      count-has_piece after (clear_piece-IsValid index v),
      ap (λ n. count_below n (Bitfield.has_piece after)) same,
      count_below-turn_on bf.piece_count index (Bitfield.has_piece after) (Bitfield.has_piece bf) h
          (has-clear_piece index index v ∙ ground arith) present
          (λ i ne. sym (has-clear_piece index i v ∙ ground arith)),
    )

-- Setting a piece that is there, or clearing one that is not, changes no byte.
set_piece_again :
    (bf : Bitfield) (index : ℕ)
    → IsValid bf
    → Bitfield.has_piece bf index ≡ true
    → Bitfield.set_piece bf index ≡ bf
unfolding Bitfield.has_piece Bitfield.set_piece
set_piece_again bf index v present = ground (
  arith,
  set_bit-of-test (get_or bf.bits (index / 8) 0) (7 - index % 8)
      (All-get_or IsByte bf.bits (index / 8) 0 (omega arith) v.bytes),
  set-get_or bf.bits (index / 8) 0,
)

clear_piece_again :
    (bf : Bitfield) (index : ℕ)
    → IsValid bf
    → index < bf.piece_count
    → Bitfield.has_piece bf index ≡ false
    → Bitfield.clear_piece bf index ≡ bf
unfolding Bitfield.has_piece Bitfield.clear_piece
clear_piece_again bf index v h missing = ground (
  arith,
  clear_bit-of-test (get_or bf.bits (index / 8) 0) (7 - index % 8)
      (All-get_or IsByte bf.bits (index / 8) 0 (omega arith) v.bytes),
  set-get_or bf.bits (index / 8) 0,
)

has-to_bitfield :
    (bf : CachedBitfield) (i : ℕ) → has_piece bf i ≡ Bitfield.has_piece (to_bitfield bf) i
unfolding has_piece to_bitfield Bitfield.has_piece
has-to_bitfield bf i = refl

to_bitfield-set_piece :
    (bf : CachedBitfield) (index : ℕ)
    → IsCounted bf
    → to_bitfield (set_piece bf index) ≡ Bitfield.set_piece (to_bitfield bf) index
unfolding set_piece Bitfield.set_piece Bitfield.has_piece to_bitfield
to_bitfield-set_piece bf index c = ground (arith, set_piece_again (to_bitfield bf) index c.valid)

to_bitfield-clear_piece :
    (bf : CachedBitfield) (index : ℕ)
    → IsCounted bf
    → to_bitfield (clear_piece bf index) ≡ Bitfield.clear_piece (to_bitfield bf) index
unfolding clear_piece Bitfield.clear_piece Bitfield.has_piece to_bitfield
to_bitfield-clear_piece bf index c =
    ground (arith, clear_piece_again (to_bitfield bf) index c.valid)

-- A piece out of range changes nothing.
set_piece_beyond :
    (bf : Bitfield) (index : ℕ) → bf.piece_count ≤ index → Bitfield.set_piece bf index ≡ bf
unfolding Bitfield.set_piece
set_piece_beyond bf index h = ground arith

clear_piece_beyond :
    (bf : Bitfield) (index : ℕ) → bf.piece_count ≤ index → Bitfield.clear_piece bf index ≡ bf
unfolding Bitfield.clear_piece
clear_piece_beyond bf index h = ground arith

-- The counter after `set_piece`, and after `clear_piece`, is the count of the plain bitfield.
cached-set_piece :
    (bf : CachedBitfield) (index : ℕ)
    → IsCounted bf
    → (set_piece bf index).cached_count ≡ Bitfield.count (Bitfield.set_piece (to_bitfield bf) index)
unfolding set_piece to_bitfield Bitfield.has_piece
cached-set_piece bf index c =
    let plain = to_bitfield bf in
    ground (
      arith,
      c.counted,
      λ (h : bf.piece_count ≤ index). ap Bitfield.count (set_piece_beyond plain index h),
      λ (h : Bitfield.has_piece plain index ≡ true).
          ap Bitfield.count (set_piece_again plain index c.valid h),
      count-set_piece plain index c.valid,
    )

cached-clear_piece :
    (bf : CachedBitfield) (index : ℕ)
    → IsCounted bf
    → (clear_piece bf index).cached_count
      ≡ Bitfield.count (Bitfield.clear_piece (to_bitfield bf) index)
unfolding clear_piece to_bitfield Bitfield.has_piece
cached-clear_piece bf index c =
    let plain = to_bitfield bf in
    ground (
      arith,
      c.counted,
      λ (h : bf.piece_count ≤ index). ap Bitfield.count (clear_piece_beyond plain index h),
      λ (h : index < bf.piece_count) (m : Bitfield.has_piece plain index ≡ false).
          ap Bitfield.count (clear_piece_again plain index c.valid h m),
      count-clear_piece plain index c.valid,
    )

-- `set_piece` of a counted cached bitfield is that of the plain one, and the result is counted.
pub set_piece-refines :
    (bf : CachedBitfield) (index : ℕ)
    → IsCounted bf
    → (to_bitfield (set_piece bf index) ≡ Bitfield.set_piece (to_bitfield bf) index)
      × IsCounted (set_piece bf index)
set_piece-refines bf index c =
    let e = to_bitfield-set_piece bf index c in
    (
      e,
      record {
        valid = rw e (set_piece-IsValid index c.valid);
        counted = rw e (cached-set_piece bf index c);
      },
    )

-- `clear_piece` of a counted cached bitfield is that of the plain one, and the result is counted.
pub clear_piece-refines :
    (bf : CachedBitfield) (index : ℕ)
    → IsCounted bf
    → (to_bitfield (clear_piece bf index) ≡ Bitfield.clear_piece (to_bitfield bf) index)
      × IsCounted (clear_piece bf index)
clear_piece-refines bf index c =
    let e = to_bitfield-clear_piece bf index c in
    (
      e,
      record {
        valid = rw e (clear_piece-IsValid index c.valid);
        counted = rw e (cached-clear_piece bf index c);
      },
    )
