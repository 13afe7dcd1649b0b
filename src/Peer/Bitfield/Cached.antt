-- ===== src/Peer/Bitfield/Cached.antt =====
-- src-tauri/crates/oxidebt-peer/src/bitfield.rs, `CachedBitfield`: the same bits beside a count
-- that each operation keeps up to date. The atomic counter is read and written by one thread at a
-- time (every writer holds `&mut self`), so it is a field.
pub mod Refines
pub mod Build
use rbitt.Prelude.{
  ℕ, zero, ◌+◌, ◌-◌, Bool, true, false, not, Bytes, leb, ◌==◌, if◌then◌else◌, length, replicate,
}
use rbitt.Prelude.Bits.{set_bit, clear_bit}
use rbitt.Peer.Error.{Result, ok, err, bitfield_length_mismatch}
use rbitt.Peer.Bitfield.{Bitfield, byte_count, raw_bit, change_bit, clear_spare, sum_ones}

pub record CachedBitfield : Type 0 where
  pub bits : Bytes
  pub piece_count : ℕ
  pub cached_count : ℕ

unfoldable pub new : ℕ → CachedBitfield
new piece_count = record {
  bits = replicate (byte_count piece_count) 0;
  piece_count = piece_count;
  cached_count = 0;
}

unfoldable pub clear_spare_bits : CachedBitfield → CachedBitfield
unfolding clear_spare
clear_spare_bits bf = record bf { bits = clear_spare bf.bits bf.piece_count }

unfoldable pub compute_count : CachedBitfield → ℕ
unfolding sum_ones
compute_count bf = sum_ones bf.bits

unfoldable pub from_bytes : Bytes → ℕ → Result CachedBitfield
unfolding clear_spare_bits compute_count
from_bytes bytes piece_count =
    let expected_len = byte_count piece_count in
    if not (length bytes == expected_len)
    then err (bitfield_length_mismatch expected_len (length bytes))
    else let bf =
        clear_spare_bits (record { bits = bytes; piece_count = piece_count; cached_count = 0 }) in
      ok (record bf { cached_count = compute_count bf })

unfoldable pub full : ℕ → CachedBitfield
unfolding clear_spare_bits
full piece_count =
    let bf = clear_spare_bits (record {
      bits = replicate (byte_count piece_count) 0xff;
      piece_count = piece_count;
      cached_count = piece_count;
    }) in
    record bf { cached_count = piece_count }

unfoldable pub has_piece : CachedBitfield → ℕ → Bool
unfolding raw_bit
has_piece bf index = if leb bf.piece_count index then false else raw_bit bf.bits index

unfoldable pub set_piece : CachedBitfield → ℕ → CachedBitfield
unfolding has_piece change_bit
set_piece bf index =
    if leb bf.piece_count index
    then bf
    else if not (has_piece bf index)
    then record bf { bits = change_bit set_bit bf.bits index; cached_count = bf.cached_count + 1 }
    else bf

-- `fetch_sub` wraps around below 0; under the invariant the count is positive here.
unfoldable pub clear_piece : CachedBitfield → ℕ → CachedBitfield
unfolding has_piece change_bit
clear_piece bf index =
    if leb bf.piece_count index
    then bf
    else if has_piece bf index
    then record bf { bits = change_bit clear_bit bf.bits index; cached_count = bf.cached_count - 1 }
    else bf

unfoldable pub count : CachedBitfield → ℕ
count bf = bf.cached_count

unfoldable pub is_complete : CachedBitfield → Bool
unfolding count
is_complete bf = count bf == bf.piece_count

unfoldable pub is_empty : CachedBitfield → Bool
unfolding count
is_empty bf = count bf == 0

unfoldable pub to_bitfield : CachedBitfield → Bitfield
to_bitfield bf = record { bits = bf.bits; piece_count = bf.piece_count }
