-- ===== src/Peer/Bitfield/Build.antt =====
-- The bitfields that `new`, `full` and `from_bytes` build: they are valid, and which pieces they
-- have.
use rbitt.Prelude.{
  subst, ℕ, ◌+◌, ◌-◌, ◌*◌, ◌/◌, ◌%◌, ◌≤◌, ◌<◌, ◌≡◌, ◌≢◌, ◌⊎◌, refl, ◌∙◌, inl, inr, true, false,
  ◌&&◌, arith, Bytes, IsByte, ltb, ◌==◌, Bool-cases, length, length-set, get_or, set, replicate,
  get_or-set_self, get_or-set_ne, get_or-replicate, get_or_beyond, length-replicate, All, All-set,
  All-replicate, All-get_or,
}
use rbitt.Prelude.Bits.{clear_low, test-clear_low, clear_low-lt, test_bit-zero, test_bit-ones}
use rbitt.Peer.Error.{ok, err, bitfield_length_mismatch}
use rbitt.Peer.Bitfield.{
  Bitfield, byte_count, raw_bit, clear_spare, new, clear_spare_bits, from_bytes, full, has_piece,
}
use rbitt.Peer.Bitfield.Invariant.{IsValid}

-- Behind the last byte no bit is set.
raw_bit_beyond : (bits : Bytes) (j : ℕ) → length bits ≤ j / 8 → raw_bit bits j ≡ false
unfolding raw_bit
raw_bit_beyond bits j h =
    rw (get_or_beyond bits (j / 8) 0 h) (test_bit-zero (7 - j % 8) (omega arith))

-- The mask on the last byte, in terms of the bits of the whole sequence.
raw-mask_last :
    (bits : Bytes) (spare j : ℕ)
    → All IsByte bits
    → spare < 8
    → 0 < length bits
    → raw_bit (set bits (length bits - 1) (clear_low (get_or bits (length bits - 1) 0) spare)) j
      ≡ (ltb (j + spare) (length bits * 8) && raw_bit bits j)
unfolding raw_bit
raw-mask_last bits spare j bytes hs hl = elim (Bool-cases (ltb (j / 8) (length bits))) [
  | inl e ↦ elim (Bool-cases (j / 8 == length bits - 1)) [
    | inl f ↦ ground (
      arith,
      get_or-set_self bits (length bits - 1) (clear_low (get_or bits (length bits - 1) 0) spare) 0,
      test-clear_low (get_or bits (length bits - 1) 0) spare (7 - j % 8),
      All-get_or IsByte bits (length bits - 1) 0 (omega arith) bytes,
    )
    | inr f ↦ ground (
      arith,
      get_or-set_ne bits (length bits - 1) (j / 8)
          (clear_low (get_or bits (length bits - 1) 0) spare) 0,
    )
  ]
  | inr e ↦ ground (
    arith,
    raw_bit_beyond bits j,
    raw_bit_beyond (set bits (length bits - 1) (clear_low (get_or bits (length bits - 1) 0) spare))
        j,
    length-set bits (length bits - 1) (clear_low (get_or bits (length bits - 1) 0) spare),
  )
]

-- What `clear_spare` leaves: the bits of the pieces, and nothing behind them.
raw-clear_spare :
    (bits : Bytes) (piece_count j : ℕ)
    → All IsByte bits
    → length bits ≡ byte_count piece_count
    → raw_bit (clear_spare bits piece_count) j ≡ (ltb j piece_count && raw_bit bits j)
unfolding clear_spare
raw-clear_spare bits piece_count j bytes sized =
    let spare = length bits * 8 - piece_count in
    elim (Bool-cases (ltb 0 spare && ltb spare 8 && ltb 0 (length bits))) [
      | inl e ↦
          rw e (ground (arith, raw-mask_last bits spare j bytes (ground arith) (ground arith)))
      | inr e ↦ rw e (ground (arith, raw_bit_beyond bits j))
    ]

clear_spare-bytes :
    (bits : Bytes) (piece_count : ℕ) → All IsByte bits → All IsByte (clear_spare bits piece_count)
unfolding clear_spare
clear_spare-bytes bits piece_count bytes =
    let spare = length bits * 8 - piece_count in
    elim (Bool-cases (ltb 0 spare && ltb spare 8 && ltb 0 (length bits))) [
      | inl e ↦ rw e (
          All-set IsByte bits _ _
            (clear_low-lt _ spare (All-get_or IsByte bits _ 0 (omega arith) bytes) (ground arith))
            bytes)
      | inr e ↦ rw e bytes
    ]

length-clear_spare :
    (bits : Bytes) (piece_count : ℕ) → length (clear_spare bits piece_count) ≡ length bits
unfolding clear_spare
length-clear_spare bits piece_count = ground (
  arith,
  length-set bits (length bits - 1)
      (clear_low (get_or bits (length bits - 1) 0) (length bits * 8 - piece_count)),
)

clear_spare_bits-IsValid :
    (bf : Bitfield)
    → length bf.bits ≡ byte_count bf.piece_count
    → All IsByte bf.bits
    → IsValid (clear_spare_bits bf)
unfolding clear_spare_bits
clear_spare_bits-IsValid bf sized bytes = record {
  sized = length-clear_spare bf.bits bf.piece_count ∙ sized;
  bytes = clear_spare-bytes bf.bits bf.piece_count bytes;
  spare = λ i h. raw-clear_spare bf.bits bf.piece_count i bytes sized ∙ ground arith;
}

raw-replicate_zero : (n j : ℕ) → raw_bit (replicate n 0) j ≡ false
unfolding raw_bit
raw-replicate_zero n j =
    rw
      (All-get_or (λ (b : ℕ). b ≡ 0) (replicate n 0) (j / 8) 0 refl
        (All-replicate (λ (b : ℕ). b ≡ 0) n 0 refl))
      (test_bit-zero (7 - j % 8) (omega arith))

-- `new` gives a valid bitfield with no piece.
pub new-IsValid : (n : ℕ) → IsValid (new n)
unfolding new
new-IsValid n = record {
  sized = length-replicate (byte_count n) 0;
  bytes = All-replicate IsByte (byte_count n) 0 (omega arith);
  spare = λ i h. raw-replicate_zero (byte_count n) i;
}

pub has-new : (n j : ℕ) → has_piece (new n) j ≡ false
unfolding new has_piece
has-new n j = ground (arith, raw-replicate_zero (byte_count n) j)

-- `full` gives a valid bitfield.
pub full-IsValid : (n : ℕ) → IsValid (full n)
unfolding full
full-IsValid n =
    clear_spare_bits-IsValid (record { bits = replicate (byte_count n) 0xff; piece_count = n })
      (length-replicate (byte_count n) 0xff)
      (All-replicate IsByte (byte_count n) 0xff (omega arith))

raw-replicate_ones : (n j : ℕ) → j / 8 < n → raw_bit (replicate n 0xff) j ≡ true
unfolding raw_bit
raw-replicate_ones n j h =
    rw (get_or-replicate {A = ℕ} n (j / 8) 0xff 0 h) (test_bit-ones (7 - j % 8) (omega arith))

-- `full` has exactly the pieces below the count.
pub has-full : (n j : ℕ) → has_piece (full n) j ≡ ltb j n
unfolding full has_piece clear_spare_bits
has-full n j = ground (
  arith,
  raw-clear_spare (replicate (byte_count n) 0xff) n j
      (All-replicate IsByte (byte_count n) 0xff (omega arith))
      (length-replicate (byte_count n) 0xff),
  raw-replicate_ones (byte_count n) j,
)

-- A bitfield of `n` pieces that has a piece exactly when the piece's bit is set in the input.
abbrev pub Holds : ℕ → Bytes → Bitfield → Type 0
Holds n bytes bf =
    IsValid bf × (bf.piece_count ≡ n) × ((j : ℕ) → j < n → has_piece bf j ≡ raw_bit bytes j)

-- On bytes, `from_bytes` refuses a wrong length with the error that names both lengths, and gives for
-- the right length a valid bitfield of that many pieces, which has a piece exactly when the piece's
-- bit is set in the input.
pub from_bytes-IsValid :
    (bytes : Bytes) (n : ℕ)
    → All IsByte bytes
    → (length bytes ≢ byte_count n)
        × (from_bytes bytes n ≡ err (bitfield_length_mismatch (byte_count n) (length bytes)))
      ⊎ (length bytes ≡ byte_count n)
        × ((bf : Bitfield) × (from_bytes bytes n ≡ ok bf) × Holds n bytes bf)
unfolding from_bytes has_piece clear_spare_bits
from_bytes-IsValid bytes n bs = elim (Bool-cases (length bytes == byte_count n)) [
  | inr e ↦ inl ((λ same. ground (arith, e, same)), rw e refl)
  | inl e ↦
      let given : Bitfield = record { bits = bytes; piece_count = n } in
      let sized : length bytes ≡ byte_count n = ground (arith, e) in
      inr (
        sized,
        (
          clear_spare_bits given,
          rw e refl,
          (
            clear_spare_bits-IsValid given sized bs,
            refl,
            λ j lt. ground (arith, raw-clear_spare bytes n j bs sized),
          ),
        ),
      )
]

pub from_bytes_ok :
    (bytes : Bytes) (n : ℕ) {bf : Bitfield}
    → All IsByte bytes
    → from_bytes bytes n ≡ ok bf
    → (length bytes ≡ byte_count n) × Holds n bytes bf
from_bytes_ok bytes n {bf} bs h = elim (from_bytes-IsValid bytes n bs) [
  | inl (wrong, refused) ↦ cc
  | inr (sized, (made, e, holds)) ↦
      let same : made ≡ bf = cc in (sized, subst (Holds n bytes) same holds)
]
