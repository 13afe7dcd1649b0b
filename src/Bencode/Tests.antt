-- ===== src/Bencode/Tests.antt =====
-- Runs of the codec on concrete inputs, and its theorems at such inputs.
use rbitt.Prelude.{◌≡◌, ◌≢◌, refl, some, [], ◌∷◌, ◌++◌, Bytes, codes, arith}
use rbitt.Prelude.Int.{pos, negsuc}
use rbitt.Bencode.Text.{format_usize}
use rbitt.Prelude.Lex.{lex_lt}
use rbitt.Bencode.Value.{
  Value, bytes, integer, list, dict, no_items, item, no_fields, field, get, unsorted, ok, err,
  out_of_fuel, bind, negative_zero, leading_zeros, unsorted_keys, trailing_data, unexpected_eof,
  string_too_large, non_string_key,
}
use rbitt.Bencode.Encode.{encode, ◌>>=◌}
use rbitt.Bencode.Cursor.{peek, next, remaining, slice_from, read_bytes}
use rbitt.Bencode.Scalar.{
  decode_integer, decode_bytes, integer_loop, length_loop, check_integer, check_length,
}
use rbitt.Bencode.Decode.{decode, decode_with_info_raw, decode_value_tracking_info, as_key}
use rbitt.Bencode.Encodable.{IsEncodable}
use rbitt.Bencode.Decode.Sound.{decode-ends, decode-IsEncodable}
use rbitt.Bencode.Canonical.{info, decode-encode, encode-decode, decode_plus_sign}

-- d 4:info l i-3e 0: e 1:z 2:ok e
abbrev sample : Value
sample = dict (
    field (codes "info") (list (item (integer (negsuc 2)) (item (bytes []) no_items)))
      (field (codes "z") (bytes (codes "ok")) no_fields))

sample_text : encode sample ≡ some (codes "d4:infoli-3e0:e1:z2:oke")
unfolding encode lex_lt rbitt.Bencode.Encode.encode_bytes rbitt.Bencode.Encode.encode_integer
    format_usize rbitt.Bencode.Text.format_i64
sample_text = refl

sample_decodes : decode (codes "d4:infoli-3e0:e1:z2:oke") ≡ ok sample
unfolding decode lex_lt peek next remaining slice_from read_bytes decode_value_tracking_info
    decode_bytes length_loop check_length rbitt.Bencode.Text.is_utf8 rbitt.Bencode.Text.parse_usize
    as_key decode_integer integer_loop check_integer rbitt.Bencode.Text.parse_i64
    rbitt.Bencode.Value.insert rbitt.Bencode.Value.push
sample_decodes = refl

sample-IsEncodable : IsEncodable 0 sample
unfolding IsEncodable lex_lt
sample-IsEncodable = (
  omega arith,
  (
    refl,
    (omega arith, omega arith),
    (omega arith, ((omega arith, omega arith), ((omega arith, omega arith), tt))),
    (refl, (omega arith, omega arith), (omega arith, omega arith), tt),
  ),
)

decode-encode_example :
    (out : Bytes) × (encode sample ≡ some out)
    × (decode out ≡ ok sample)
    × (decode_with_info_raw out ≡ ok (sample, get sample info >>= encode))
decode-encode_example = decode-encode sample sample-IsEncodable

encode-decode_example : (out : Bytes) × (encode sample ≡ some out) × (decode out ≡ ok sample)
encode-decode_example = encode-decode (codes "d4:infoli-3e0:e1:z2:oke") sample sample_decodes

decode-ends_example : decode (codes "lli1e4:ab") ≢ out_of_fuel
decode-ends_example = decode-ends (codes "lli1e4:ab")

decode-IsEncodable_example : IsEncodable 0 sample
decode-IsEncodable_example =
    decode-IsEncodable (codes "d4:infoli-3e0:e1:z2:oke") sample sample_decodes

decode_plus_sign_example :
    (decode (b'i' ∷ b'+' ∷ (format_usize 5 ++ b'e' ∷ [])) ≡ ok (integer (pos 5)))
    × (encode sample ≢ some (b'i' ∷ b'+' ∷ (format_usize 5 ++ b'e' ∷ [])))
decode_plus_sign_example = decode_plus_sign 5 sample (omega arith) sample-IsEncodable

refuses_negative_zero : decode (codes "i-0e") ≡ err negative_zero
unfolding decode decode_value_tracking_info peek decode_integer next integer_loop remaining
    check_integer rbitt.Bencode.Text.is_utf8
refuses_negative_zero = refl

refuses_leading_zeros : decode (codes "i05e") ≡ err leading_zeros
unfolding decode decode_value_tracking_info peek decode_integer next integer_loop remaining
    check_integer rbitt.Bencode.Text.is_utf8
refuses_leading_zeros = refl

refuses_unsorted_keys : decode (codes "d1:bi1e1:ai2ee") ≡ err unsorted_keys
unfolding decode decode_value_tracking_info peek next decode_bytes length_loop remaining
    check_length rbitt.Bencode.Text.is_utf8 rbitt.Bencode.Text.parse_usize read_bytes as_key
    decode_integer integer_loop check_integer rbitt.Bencode.Text.parse_i64 lex_lt
refuses_unsorted_keys = refl

refuses_trailing_data : decode (codes "i1ee") ≡ err trailing_data
unfolding decode decode_value_tracking_info peek decode_integer next integer_loop remaining
    check_integer rbitt.Bencode.Text.is_utf8 rbitt.Bencode.Text.parse_i64
refuses_trailing_data = refl

refuses_unexpected_eof : decode (codes "li1e") ≡ err unexpected_eof
unfolding decode decode_value_tracking_info peek next decode_integer integer_loop remaining
    check_integer rbitt.Bencode.Text.is_utf8 rbitt.Bencode.Text.parse_i64
refuses_unexpected_eof = refl

refuses_string_too_large : decode (codes "99999999999:") ≡ err (string_too_large 99999999999)
unfolding decode decode_value_tracking_info peek decode_bytes length_loop next remaining
    check_length rbitt.Bencode.Text.is_utf8 rbitt.Bencode.Text.parse_usize
refuses_string_too_large = refl

refuses_non_string_key : decode (codes "di1ei2ee") ≡ err non_string_key
unfolding decode decode_value_tracking_info peek next decode_integer integer_loop remaining
    check_integer rbitt.Bencode.Text.is_utf8 rbitt.Bencode.Text.parse_i64 as_key
refuses_non_string_key = refl
