-- ===== src/Peer/Bitfield.antt =====
-- src-tauri/crates/oxidebt-peer/src/bitfield.rs, `Bitfield`: one bit for each piece, the highest
-- bit of each byte first. A byte index that is out of range panics in the source; under the
-- invariant `IsValid` of the child `Invariant` no such index is read or written.
pub mod Invariant
pub mod Build
pub mod Count
pub mod Cached
mod Tests
use rbitt.Prelude.{
  ℕ, zero, suc, ◌+◌, ◌-◌, ◌*◌, ◌/◌, ◌%◌, Bool, true, false, not, ◌&&◌, List, [], ◌∷◌, ◌++◌, Bytes,
  ltb, leb, ◌==◌, if◌then◌else◌, length, get_or, set, replicate,
}
use rbitt.Prelude.Bits.{test_bit, set_bit, clear_bit, clear_low, count_ones}
use rbitt.Peer.Error.{Result, ok, err, bitfield_length_mismatch}

pub record Bitfield : Type 0 where
  pub bits : Bytes
  pub piece_count : ℕ

-- `piece_count.div_ceil(8)`
abbrev pub byte_count : ℕ → ℕ
byte_count piece_count = (piece_count + 7) / 8

-- The bit that stands for the piece `index`, in any sequence of bytes.
unfoldable pub raw_bit : Bytes → ℕ → Bool
raw_bit bits index = test_bit (get_or bits (index / 8) 0) (7 - index % 8)

-- The byte of `index` replaced by what `f` makes of it and of the bit's place in it.
unfoldable pub change_bit : (ℕ → ℕ → ℕ) → Bytes → ℕ → Bytes
change_bit f bits index =
    let byte_index = index / 8 in set bits byte_index (f (get_or bits byte_index 0) (7 - index % 8))

-- `clear_spare_bits` reads and writes `bits` and `piece_count` alone.
unfoldable pub clear_spare : Bytes → ℕ → Bytes
clear_spare bits piece_count =
    let spare = length bits * 8 - piece_count in
    let last = length bits - 1 in
    if ltb 0 spare && ltb spare 8 && ltb 0 (length bits)
    then set bits last (clear_low (get_or bits last 0) spare)
    else bits

-- `bits.iter().map(|b| b.count_ones() as usize).sum()`
unfoldable pub sum_ones : Bytes → ℕ
sum_ones [] = 0
sum_ones (b ∷ bs) = count_ones b + sum_ones bs

unfoldable pub new : ℕ → Bitfield
new piece_count = record { bits = replicate (byte_count piece_count) 0; piece_count = piece_count }

unfoldable pub clear_spare_bits : Bitfield → Bitfield
unfolding clear_spare
clear_spare_bits bf = record bf { bits = clear_spare bf.bits bf.piece_count }

unfoldable pub from_bytes : Bytes → ℕ → Result Bitfield
from_bytes bytes piece_count =
    let expected_len = byte_count piece_count in
    if not (length bytes == expected_len)
    then err (bitfield_length_mismatch expected_len (length bytes))
    else ok (clear_spare_bits (record { bits = bytes; piece_count = piece_count }))

unfoldable pub full : ℕ → Bitfield
full piece_count =
    clear_spare_bits
      (record { bits = replicate (byte_count piece_count) 0xff; piece_count = piece_count })

unfoldable pub has_piece : Bitfield → ℕ → Bool
unfolding raw_bit
has_piece bf index = if leb bf.piece_count index then false else raw_bit bf.bits index

unfoldable pub set_piece : Bitfield → ℕ → Bitfield
unfolding change_bit
set_piece bf index =
    if leb bf.piece_count index then bf else record bf { bits = change_bit set_bit bf.bits index }

unfoldable pub clear_piece : Bitfield → ℕ → Bitfield
unfolding change_bit
clear_piece bf index =
    if leb bf.piece_count index then bf else record bf { bits = change_bit clear_bit bf.bits index }

unfoldable pub count : Bitfield → ℕ
unfolding sum_ones
count bf = sum_ones bf.bits

unfoldable pub is_complete : Bitfield → Bool
is_complete bf = count bf == bf.piece_count

-- `bits.iter().all(|&b| b == 0)`
unfoldable pub all_zero : Bytes → Bool
all_zero [] = true
all_zero (b ∷ bs) = (b == 0) && all_zero bs

unfoldable pub is_empty : Bitfield → Bool
unfolding all_zero
is_empty bf = all_zero bf.bits

-- The loop of `missing_pieces` from index `i`, with `n` indices left.
unfoldable pub missing_from : ℕ → ℕ → Bitfield → Bitfield → List ℕ
missing_from zero i theirs ours = []
missing_from (suc n) i theirs ours =
    let rest = missing_from n (i + 1) theirs ours in
    if has_piece theirs i && not (has_piece ours i) then i ∷ rest else rest

unfoldable pub missing_pieces : Bitfield → Bitfield → List ℕ
unfolding missing_from
missing_pieces theirs ours = missing_from theirs.piece_count 0 theirs ours
