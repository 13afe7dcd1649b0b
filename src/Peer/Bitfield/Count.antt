-- ===== src/Peer/Bitfield/Count.antt =====
-- What the operations of a bitfield that look at all its pieces answer, in terms of `has_piece`.
use rbitt.Prelude.{
  ℕ, zero, suc, ◌+◌, ◌-◌, ◌*◌, ◌/◌, ◌%◌, ◌<◌, ◌≡◌, refl, ap, ◌∙◌, ◌↔◌, true, false, not, ◌&&◌, [],
  ◌∷◌, arith, Bytes, IsByte, ltb, leb, ==_iff, length, get_or, All, contains,
}
use rbitt.Prelude.Bits.{test_bit, eq_zero-of-count_ones, test_bit-zero}
use rbitt.Prelude.Counting.{
  count_below, count_below-ext, count_below-all, all-of-count_below, count_below-none,
  count_below-split,
}
use rbitt.Peer.Bitfield.{
  Bitfield, raw_bit, sum_ones, has_piece, count, is_complete, all_zero, is_empty, missing_from,
  missing_pieces,
}
use rbitt.Peer.Bitfield.Invariant.{IsValid}

first_byte : (b : ℕ) (bs : Bytes) → count_below 8 (raw_bit (b ∷ bs)) ≡ count_below 8 (test_bit b)
unfolding count_below raw_bit
first_byte b bs = omega arith

raw_bit-cons : (b : ℕ) (bs : Bytes) (i : ℕ) → raw_bit (b ∷ bs) (i + 8) ≡ raw_bit bs i
unfolding raw_bit
raw_bit-cons b bs i =
    let e : (i + 8) / 8 ≡ suc (i / 8) = omega arith in
    let f : (i + 8) % 8 ≡ i % 8 = omega arith in rw (e, f)

sum_ones-count_below : (bits : Bytes) → sum_ones bits ≡ count_below (length bits * 8) (raw_bit bits)
unfolding sum_ones
sum_ones-count_below [] = unfold count_below in refl
sum_ones-count_below (b ∷ bs) =
    let e : suc (length bs) * 8 ≡ length bs * 8 + 8 = omega arith in
    rw e (
      omega (
        arith,
        count_below-split 8 (length bs * 8) (raw_bit (b ∷ bs)),
        first_byte b bs,
        count_below-ext (length bs * 8) (λ i. raw_bit (b ∷ bs) (i + 8)) (raw_bit bs)
            (λ i h. raw_bit-cons b bs i),
        sum_ones-count_below bs,
      ))

-- On a valid bitfield, `count` is the number of pieces that `has_piece` reports.
pub count-has_piece :
    (bf : Bitfield) → IsValid bf → count bf ≡ count_below bf.piece_count (has_piece bf)
unfolding count has_piece
count-has_piece bf v =
    let rest = length bf.bits * 8 - bf.piece_count in
    let e : length bf.bits * 8 ≡ rest + bf.piece_count = omega (arith, v.sized) in
    omega (
      arith,
      sum_ones-count_below bf.bits,
      ap (λ n. count_below n (raw_bit bf.bits)) e,
      count_below-split bf.piece_count rest (raw_bit bf.bits),
      count_below-none rest (λ i. raw_bit bf.bits (i + bf.piece_count))
          (λ i h. v.spare (i + bf.piece_count) (omega arith)),
      count_below-ext bf.piece_count (raw_bit bf.bits) (has_piece bf) (λ i h. ground arith),
    )

-- A valid bitfield is complete exactly when it has every piece.
pub is_complete_iff :
    (bf : Bitfield)
    → IsValid bf
    → (is_complete bf ≡ true) ↔ ((i : ℕ) → i < bf.piece_count → has_piece bf i ≡ true)
unfolding is_complete
is_complete_iff bf v = (
  λ h. all-of-count_below bf.piece_count (has_piece bf) (ground (arith, count-has_piece bf v)),
  λ all. ground (arith, count-has_piece bf v, count_below-all bf.piece_count (has_piece bf) all),
)

all_zero-raw : (bits : Bytes) → all_zero bits ≡ true → (i : ℕ) → get_or bits i 0 ≡ 0
unfolding all_zero
all_zero-raw [] h i = refl
all_zero-raw (b ∷ bs) h zero = ground arith
all_zero-raw (b ∷ bs) h (suc i) = all_zero-raw bs (ground arith) i

all_zero-of-sum_ones : (bits : Bytes) → All IsByte bits → sum_ones bits ≡ 0 → all_zero bits ≡ true
unfolding all_zero sum_ones
all_zero-of-sum_ones [] bytes h = refl
all_zero-of-sum_ones (b ∷ bs) bytes h = ground (
  arith,
  eq_zero-of-count_ones b bytes.0 (omega arith),
  all_zero-of-sum_ones bs bytes.1 (omega arith),
)

none_ones : (bf : Bitfield) → IsValid bf → ((i : ℕ) → has_piece bf i ≡ false) → sum_ones bf.bits ≡ 0
unfolding count
none_ones bf v nothing =
    omega (
      arith,
      count-has_piece bf v,
      count_below-none bf.piece_count (has_piece bf) (λ i h. nothing i),
    )

-- A valid bitfield is empty exactly when it has no piece.
pub is_empty_iff :
    (bf : Bitfield) → IsValid bf → (is_empty bf ≡ true) ↔ ((i : ℕ) → has_piece bf i ≡ false)
unfolding is_empty has_piece raw_bit
is_empty_iff bf v = (
  λ h i. ground (arith, all_zero-raw bf.bits h (i / 8), test_bit-zero (7 - i % 8)),
  λ nothing. all_zero-of-sum_ones bf.bits v.bytes (none_ones bf v nothing),
)

missing_from-contains :
    (n i j : ℕ) (theirs ours : Bitfield)
    → contains j (missing_from n i theirs ours)
      ≡ (leb i j && ltb j (i + n) && has_piece theirs j && not (has_piece ours j))
unfolding missing_from
missing_from-contains zero i j theirs ours = ground arith
missing_from-contains (suc n) i j theirs ours =
    ground (arith, missing_from-contains n (i + 1) j theirs ours, ==_iff i j)

-- `missing_pieces` lists exactly the pieces that the peer has and we do not.
pub missing_pieces-contains :
    (theirs ours : Bitfield) (j : ℕ)
    → contains j (missing_pieces theirs ours) ≡ (has_piece theirs j && not (has_piece ours j))
unfolding missing_pieces
missing_pieces-contains theirs ours j =
    missing_from-contains theirs.piece_count 0 j theirs ours ∙ (unfold has_piece in ground arith)
