-- ===== src/Bencode/Canonical.antt =====
-- The codec as a whole: src-tauri/crates/oxidebt-bencode/src/encode.rs and decode.rs together.
use rbitt.Prelude.{
  ◌≢◌, get_or, Option, none, subst, sym, ap, ◌∙◌, Bool-cases, inl, inr, not, ◌&&◌, ℕ, suc, ◌*◌, ◌≤◌,
  ◌≡◌, refl, ap, ◌∙◌, true, false, Option, none, some, [], ◌∷◌, ◌++◌, Bytes, codes, ltb,
  if◌then◌else◌, length, arith,
}
use rbitt.Prelude.Int.{pos}
use rbitt.Bencode.Text.{format_i64, format_usize, i64_max}
use rbitt.Bencode.Text.Decimal.{format-Leading}
use rbitt.Bencode.Value.{
  Value, Fields, integer, dict, no_fields, field, find, get, Result, trailing_data, ok, err,
  out_of_fuel, bind,
}
use rbitt.Prelude.Lex.{lex_lt, lex_lt-asym, lex_lt_trans, eq-of-not-lex_lt}
use rbitt.Bencode.Encode.{encode_integer, encode_value, encode, ◌>>=◌}
use rbitt.Bencode.Encode.Print.{print, encode-print}
use rbitt.Bencode.Cursor.{start, Cursor, remaining}
use rbitt.Bencode.Cursor.Window.{window, peek-window, remaining-window}
use rbitt.Bencode.Scalar.RoundTrip.{decode_integer_plus}
use rbitt.Prelude.Same.{same_bytes}
use rbitt.Bencode.Decode.{
  decode, decode_with_info_raw, Tracked, decode_value_tracking_info, fuel_for, untracked,
}
use rbitt.Bencode.Decode.Steps.{info_from, info_of, step_integer}
use rbitt.Bencode.Decode.RoundTrip.{decode-print, decode_with_info_raw-print}
use rbitt.Bencode.Decode.Sound.{decode-IsEncodable}
use rbitt.Bencode.Encodable.{IsEncodable, IsEncodableFields, IsEncodable-IsSorted}

abbrev pub info : Bytes
info = codes "info"

abbrev map_print : Option Value → Option Bytes
map_print none = none
map_print (some v) = some (print v)

-- Two byte strings are the same exactly when neither is below the other.
same_bytes-lex_lt : (a b : Bytes) → same_bytes a b ≡ (not (lex_lt a b) && not (lex_lt b a))
unfolding same_bytes lex_lt
same_bytes-lex_lt [] [] = refl
same_bytes-lex_lt [] (y ∷ b) = refl
same_bytes-lex_lt (x ∷ a) [] = refl
same_bytes-lex_lt (x ∷ a) (y ∷ b) = ground (arith, same_bytes-lex_lt a b)

lex_lt_of_le : (a b c : Bytes) → lex_lt b a ≡ false → lex_lt b c ≡ true → lex_lt a c ≡ true
lex_lt_of_le a b c h k = elim (Bool-cases (lex_lt a b)) [
  | inl e ↦ lex_lt_trans a b c e k
  | inr e ↦ rw (eq-of-not-lex_lt a b e h) k
]

-- Behind a key that is not below `info` the loop meets no `info`.
info_from_past :
    (depth : ℕ) (prev : Bytes) (fs : Fields) (acc : Option Bytes)
    → IsEncodableFields depth (some prev) fs
    → lex_lt prev info ≡ false
    → info_from acc fs ≡ acc
unfolding info_from IsEncodable
info_from_past depth prev no_fields acc h past = refl
info_from_past depth prev (field k v fs) acc h past =
    let above : lex_lt info k ≡ true = lex_lt_of_le info prev k past (ground (arith, h.0)) in
    let other : same_bytes k info ≡ false =
      same_bytes-lex_lt k info ∙ ground (arith, above, lex_lt-asym info k) in
    rw other (info_from_past depth k fs acc h.3 (lex_lt-asym info k above))

info_from-find :
    (depth : ℕ) (prev : Option Bytes) (fs : Fields)
    → IsEncodableFields depth prev fs
    → info_from none fs ≡ map_print (find info fs)
unfolding info_from find IsEncodable
info_from-find depth prev no_fields h = refl
info_from-find depth prev (field k v fs) h = ground (
  arith,
  same_bytes-lex_lt k info,
  info_from_past depth k fs none h.3,
  info_from_past depth k fs (some (print v)) h.3,
  lex_lt-asym info k,
  info_from-find depth (some k) fs h.3,
)

find-encode :
    (key : Bytes) (depth : ℕ) (prev : Option Bytes) (fs : Fields)
    → IsEncodableFields depth prev fs
    → map_print (find key fs) ≡ (find key fs >>= encode)
unfolding find IsEncodable
find-encode key depth prev no_fields h = refl
find-encode key depth prev (field k v fs) h = ground (
  arith,
  find-encode key depth (some k) fs h.3,
  encode-print v (IsEncodable-IsSorted depth v h.2),
)

info_of-get : (v : Value) → IsEncodable 0 v → info_of v ≡ (get v info >>= encode)
unfolding info_of get IsEncodable
info_of-get (dict fs) h = info_from-find 1 none fs h.1 ∙ find-encode info 1 none fs h.1
info_of-get _ h = refl

-- An encodable value is encoded, and what was written is decoded to the value. The raw bytes that
-- `decode_with_info_raw` returns beside it are those that the entry `info` is encoded to, if the
-- value is a dictionary with such an entry, and none otherwise.
pub decode-encode :
    (v : Value)
    → IsEncodable 0 v
    → (out : Bytes) × (encode v ≡ some out)
      × (decode out ≡ ok v)
      × (decode_with_info_raw out ≡ ok (v, get v info >>= encode))
decode-encode v h = (
  print v,
  encode-print v (IsEncodable-IsSorted 0 v h),
  decode-print v h,
  decode_with_info_raw-print v h ∙ ap (λ raw. ok (v, raw)) (info_of-get v h),
)

-- Whatever the decoder accepts, the encoder writes, and that is decoded to the same value.
pub encode-decode :
    (input : Bytes) (v : Value)
    → decode input ≡ ok v
    → (out : Bytes) × (encode v ≡ some out) × (decode out ≡ ok v)
encode-decode input v h =
    let fine = decode-IsEncodable input v h in
    (print v, encode-print v (IsEncodable-IsSorted 0 v fine), decode-print v fine)

agree :
    (r : Result (Tracked Value × Cursor))
    → bind
        (untracked (λ _. r) (start []))
        (λ (v, c). if ltb 0 (remaining c) then err trailing_data else ok v)
      ≡ bind
          (bind r λ (found, c). if ltb 0 (remaining c) then err trailing_data else ok found)
          (λ (v, raw). ok v)
agree (ok ((v, raw), c)) = ground arith
agree (err e) = refl
agree out_of_fuel = refl

-- On every input `decode` answers as `decode_with_info_raw`, without the raw bytes.
pub decode-decode_with_info_raw :
    (input : Bytes) → decode input ≡ bind (decode_with_info_raw input) λ (v, raw). ok v
unfolding decode decode_with_info_raw
decode-decode_with_info_raw input =
    agree (decode_value_tracking_info (fuel_for input) 0 (start input))

plus_text : ℕ → Bytes
plus_text n = b'i' ∷ b'+' ∷ (format_usize n ++ b'e' ∷ [])

decode-plus_text : (n : ℕ) → n ≤ i64_max → decode (plus_text n) ≡ ok (integer (pos n))
unfolding decode plus_text
decode-plus_text n h =
    let text = b'i' ∷ b'+' ∷ (format_usize n ++ b'e' ∷ []) in
    let fuel : fuel_for text ≡ suc (3 * length text) = omega arith in
    rw
      (
        fuel,
        step_integer (3 * length text) 0 (window [] text) (omega arith) (peek-window [] text),
        decode_integer_plus n [] [] h,
      )
      (rw (remaining-window text []))

abbrev second_byte : Option Bytes → ℕ
second_byte none = 0
second_byte (some text) = get_or text 1 0

-- A number is written without a plus sign.
encode-plus_text : (n : ℕ) → encode (integer (pos n)) ≢ some (plus_text n)
unfolding encode encode_integer encode_value format_i64 plus_text
encode-plus_text n e =
    let l = format-Leading n in
    let second : get_or (format_usize n ++ b'e' ∷ []) 0 0 ≡ b'+' = ap second_byte e in
    let first : l.first ≡ b'+' = rw l.split at second in ground (arith, first, l.is_digit)

-- The decoder is not canonical. It accepts a plus sign in front of an integer, which no value that
-- respects the decoder's limits is encoded with.
pub decode_plus_sign :
    (n : ℕ) (v : Value)
    → n ≤ i64_max
    → IsEncodable 0 v
    → (decode (b'i' ∷ b'+' ∷ (format_usize n ++ b'e' ∷ [])) ≡ ok (integer (pos n)))
      × (encode v ≢ some (b'i' ∷ b'+' ∷ (format_usize n ++ b'e' ∷ [])))
unfolding plus_text
decode_plus_sign n v h limits = (
  decode-plus_text n h,
  λ e.
      let (out, printed, read, raw) = decode-encode v limits in
      let same : out ≡ plus_text n = cc in
      let is_number : v ≡ integer (pos n) =
        let twice : ok v ≡ ok (integer (pos n)) =
          sym read ∙ ap decode same ∙ decode-plus_text n h in
        cc in
      encode-plus_text n (subst (λ w. encode w ≡ some (plus_text n)) is_number e),
)
