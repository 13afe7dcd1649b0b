-- ===== src/Bencode/Scalar.antt =====
-- src-tauri/crates/oxidebt-bencode/src/decode.rs: integers and byte strings. A round of a loop
-- costs a unit of fuel, and reads a byte; the loops get one unit more than there are bytes left.
pub mod RoundTrip
pub mod Sound
use rbitt.Prelude.{
  ℕ, zero, suc, Bool, true, false, not, ◌&&◌, none, some, [], ◌∷◌, ◌++◌, Bytes, codes, ltb, ◌==◌,
  if◌then◌else◌, length,
}
use rbitt.Prelude.Same.{same_bytes}
use rbitt.Bencode.Text.{is_digit, is_utf8, parse_i64, parse_usize}
use rbitt.Bencode.Value.{
  Value, bytes, integer, Result, ok, err, out_of_fuel, invalid_integer, invalid_string_length,
  leading_zeros, negative_zero, string_too_large,
}
use rbitt.Bencode.Cursor.{M, pure, raise, ◌>>=◌, run, next, remaining, read_bytes}

abbrev pub max_string_length : ℕ
max_string_length = 1_000_000_000

unfoldable pub starts_with : Bytes → Bytes → Bool
starts_with s [] = true
starts_with [] (p ∷ ps) = false
starts_with (c ∷ s) (p ∷ ps) = (c == p) && starts_with s ps

-- The loop of `decode_integer`, which reads up to the `e`.
unfoldable pub integer_loop : ℕ → Bytes → M Bytes
integer_loop zero num_bytes c = out_of_fuel
integer_loop (suc f) num_bytes c =
    run c do b ← next; if b == b'e' then pure num_bytes else integer_loop f (num_bytes ++ b ∷ [])

-- The checks on the text of an integer.
unfoldable pub check_integer : Bytes → Result Value
unfolding same_bytes starts_with
check_integer s =
    if length s == 0
    then err (invalid_integer (codes "empty"))
    else if not (is_utf8 s)
    then err (invalid_integer (codes "invalid utf-8"))
    else if same_bytes s (codes "-0")
    then err negative_zero
    else if ltb 1 (length s) && starts_with s (codes "0")
    then err leading_zeros
    else if ltb 2 (length s) && starts_with s (codes "-0")
    then err leading_zeros
    else elim (parse_i64 s) [ none ↦ err (invalid_integer s) | some i ↦ ok (integer i) ]

unfoldable pub decode_integer : M Value
decode_integer c = run c do
  _ ← next
  fuel ← λ c. pure (suc (remaining c)) c
  num_bytes ← integer_loop fuel []
  raise (check_integer num_bytes)

-- The loop of `decode_bytes`, which reads digits up to the `:`.
unfoldable pub length_loop : ℕ → Bytes → M Bytes
length_loop zero len_bytes c = out_of_fuel
length_loop (suc f) len_bytes c = run c do
  b ← next
  if b == b':'
      then pure len_bytes
      else if not (is_digit b)
      then raise (err invalid_string_length)
      else length_loop f (len_bytes ++ b ∷ [])

-- The checks on the text of a length.
unfoldable pub check_length : Bytes → Result ℕ
unfolding starts_with
check_length s =
    if length s == 0
    then err invalid_string_length
    else if ltb 1 (length s) && starts_with s (codes "0")
    then err leading_zeros
    else if not (is_utf8 s)
    then err invalid_string_length
    else elim (parse_usize s) [
      | none ↦ err invalid_string_length
      | some len ↦ if ltb max_string_length len then err (string_too_large len) else ok len
    ]

unfoldable pub decode_bytes : M Value
decode_bytes c = run c do
  fuel ← λ c. pure (suc (remaining c)) c
  len_bytes ← length_loop fuel []
  len ← raise (check_length len_bytes)
  b ← read_bytes len
  pure (bytes b)
