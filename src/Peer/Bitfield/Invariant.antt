-- ===== src/Peer/Bitfield/Invariant.antt =====
-- The invariant of a bitfield, and what `set_piece` and `clear_piece` do to the bits that
-- `has_piece` reads.
use rbitt.Prelude.{
  ℕ, ◌-◌, ◌/◌, ◌%◌, ◌≤◌, ◌<◌, ◌≡◌, refl, ◌∙◌, inl, inr, Bool, false, not, ◌&&◌, ◌||◌, arith, Bytes,
  IsByte, ltb, leb, ◌==◌, Bool-cases, length, length-set, get_or, get_or-set_self, get_or-set_ne,
  All, All-set, All-get_or,
}
use rbitt.Prelude.Bits.{
  test_bit, set_bit, clear_bit, test-set_bit, test-clear_bit, set_bit-lt, clear_bit-lt,
}
use rbitt.Peer.Bitfield.{
  Bitfield, byte_count, raw_bit, change_bit, has_piece, set_piece, clear_piece,
}

-- As many bytes as the pieces need, each a byte, and no bit set behind the last piece.
pub record IsValid (bf : Bitfield) : Type 0 where
  pub sized : length bf.bits ≡ byte_count bf.piece_count
  pub bytes : All IsByte bf.bits
  pub spare : (i : ℕ) → bf.piece_count ≤ i → raw_bit bf.bits i ≡ false

-- One changed byte: what `f` does to the bits of every byte, it does to the bits of the sequence.
module _ (f : ℕ → ℕ → ℕ) (g : Bool → Bool → Bool)
    (law : (b k j : ℕ) → b < 256 → k < 8 → j < 8 → test_bit (f b k) j ≡ g (k == j) (test_bit b j))
    (others : (b : Bool) → g false b ≡ b) where
  pub raw-change_bit :
      (bits : Bytes) (i j : ℕ)
      → All IsByte bits
      → i / 8 < length bits
      → raw_bit (change_bit f bits i) j ≡ g (i == j) (raw_bit bits j)
  unfolding raw_bit change_bit
  raw-change_bit bits i j bytes h = elim (Bool-cases (i / 8 == j / 8)) [
    | inl e ↦ ground (
      arith,
      get_or-set_self bits (i / 8) (f (get_or bits (i / 8) 0) (7 - i % 8)) 0 h,
      law (get_or bits (i / 8) 0) (7 - i % 8) (7 - j % 8),
      All-get_or IsByte bits (i / 8) 0 (omega arith) bytes,
    )
    | inr e ↦ ground (
      arith,
      get_or-set_ne bits (i / 8) (j / 8) (f (get_or bits (i / 8) 0) (7 - i % 8)) 0,
      others (raw_bit bits j),
    )
  ]

-- A piece below the count has its byte.
pub byte-lt-length :
    {bf : Bitfield} → IsValid bf → (index : ℕ) → index < bf.piece_count → index / 8 < length bf.bits
byte-lt-length v index h = omega (arith, v.sized)

raw-set_bit :
    (bits : Bytes) (i j : ℕ)
    → All IsByte bits
    → i / 8 < length bits
    → raw_bit (change_bit set_bit bits i) j ≡ (i == j || raw_bit bits j)
raw-set_bit = raw-change_bit set_bit ◌||◌ test-set_bit (λ b. refl)

raw-clear_bit :
    (bits : Bytes) (i j : ℕ)
    → All IsByte bits
    → i / 8 < length bits
    → raw_bit (change_bit clear_bit bits i) j ≡ (not (i == j) && raw_bit bits j)
raw-clear_bit = raw-change_bit clear_bit (λ a b. not a && b) test-clear_bit (λ b. refl)

length-change_bit :
    (f : ℕ → ℕ → ℕ) (bits : Bytes) (i : ℕ) → length (change_bit f bits i) ≡ length bits
unfolding change_bit
length-change_bit f bits i = length-set bits (i / 8) _

change_bit-bytes :
    (f : ℕ → ℕ → ℕ)
    → ((b k : ℕ) → b < 256 → k < 8 → f b k < 256)
    → (bits : Bytes) (i : ℕ) → All IsByte bits
    → All IsByte (change_bit f bits i)
unfolding change_bit
change_bit-bytes f law bits i bytes =
    All-set IsByte bits (i / 8) _
      (law _ _ (All-get_or IsByte bits (i / 8) 0 (omega arith) bytes) (omega arith)) bytes

pub set_piece-IsValid : {bf : Bitfield} (index : ℕ) → IsValid bf → IsValid (set_piece bf index)
unfolding set_piece
set_piece-IsValid {bf} index v = elim (Bool-cases (leb bf.piece_count index)) [
  | inl e ↦ rw e v
  | inr e ↦ rw e (record {
    sized = length-change_bit set_bit bf.bits index ∙ v.sized;
    bytes = change_bit-bytes set_bit set_bit-lt bf.bits index v.bytes;
    spare = λ i h.
        raw-set_bit bf.bits index i v.bytes (byte-lt-length v index (ground arith))
        ∙ ground (arith, v.spare i h);
  })
]

pub clear_piece-IsValid : {bf : Bitfield} (index : ℕ) → IsValid bf → IsValid (clear_piece bf index)
unfolding clear_piece
clear_piece-IsValid {bf} index v = elim (Bool-cases (leb bf.piece_count index)) [
  | inl e ↦ rw e v
  | inr e ↦ rw e (record {
    sized = length-change_bit clear_bit bf.bits index ∙ v.sized;
    bytes = change_bit-bytes clear_bit clear_bit-lt bf.bits index v.bytes;
    spare = λ i h.
        raw-clear_bit bf.bits index i v.bytes (byte-lt-length v index (ground arith))
        ∙ ground (arith, v.spare i h);
  })
]

-- `set_piece` and `clear_piece` at any index keep the invariant.
pub changes-IsValid :
    {bf : Bitfield} (index : ℕ)
    → IsValid bf
    → IsValid (set_piece bf index) × IsValid (clear_piece bf index)
changes-IsValid index v = (set_piece-IsValid index v, clear_piece-IsValid index v)

-- On a valid bitfield, setting a piece below the count turns on that piece and no other, and
-- setting any other piece changes nothing.
pub has-set_piece :
    {bf : Bitfield} (i j : ℕ)
    → IsValid bf
    → has_piece (set_piece bf i) j ≡ (ltb i bf.piece_count && i == j || has_piece bf j)
unfolding has_piece set_piece
has-set_piece {bf} i j v = elim (Bool-cases (leb bf.piece_count i)) [
  | inl e ↦ rw e (ground arith)
  | inr e ↦
      rw e (ground (arith, raw-set_bit bf.bits i j v.bytes (byte-lt-length v i (ground arith))))
]

-- On a valid bitfield, clearing a piece turns off that piece and no other.
pub has-clear_piece :
    {bf : Bitfield} (i j : ℕ)
    → IsValid bf
    → has_piece (clear_piece bf i) j ≡ (not (i == j) && has_piece bf j)
unfolding has_piece clear_piece
has-clear_piece {bf} i j v = elim (Bool-cases (leb bf.piece_count i)) [
  | inl e ↦ rw e (ground arith)
  | inr e ↦
      rw e (ground (arith, raw-clear_bit bf.bits i j v.bytes (byte-lt-length v i (ground arith))))
]
