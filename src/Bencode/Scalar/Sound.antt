-- ===== src/Bencode/Scalar/Sound.antt =====
-- On any input the decoders of integers and byte strings end, and what they accept can be encoded.
use rbitt.Prelude.{
  ◌≢◌, ℕ, zero, suc, ◌≤◌, ◌<◌, ◌≡◌, Option, none, some, [], ◌∷◌, ◌++◌, Bytes, ◌==◌, arith,
  Bool-cases, inl, inr, Option-cases,
}
use rbitt.Prelude.Int.{ℤ, pos, negsuc, neg}
use rbitt.Bencode.Text.{is_digit, parse_i64, parse_digits, at_most, map_ℤ, i64_max}
use rbitt.Bencode.Text.Decimal.{InI64}
use rbitt.Bencode.Value.{Value, bytes, integer, ok, out_of_fuel}
use rbitt.Bencode.Cursor.{Cursor, remaining}
use rbitt.Bencode.Cursor.Moves.{
  Moved-trans, Lands-raise, Lands, lands, fails, Moved-remaining, Lands-bind, Lands-after,
  next-Lands, read_bytes-Lands,
}
use rbitt.Bencode.Scalar.{
  max_string_length, integer_loop, check_integer, decode_integer, length_loop, check_length,
  decode_bytes,
}
use rbitt.Bencode.Decode.{max_nesting_depth}
use rbitt.Bencode.Encodable.{IsEncodable}

integer_loop-Lands :
    (f : ℕ) (acc : Bytes) (c : Cursor)
    → remaining c < f
    → Lands (λ _. Unit) 1 c (integer_loop f acc c)
unfolding integer_loop
integer_loop-Lands zero acc c h = elim h [ ]
integer_loop-Lands (suc f) acc c h = Lands-bind _ (next-Lands c) λ b d _ m.
    elim (Bool-cases (b == b'e')) [
      | inl e ↦ rw e (lands tt m)
      | inr e ↦ rw e (
          Lands-after 1 (omega arith) m
            (integer_loop-Lands f (acc ++ b ∷ []) d (omega (arith, Moved-remaining m))))
    ]

negated-InI64 : (o : Option ℕ) (i : ℤ) → map_ℤ neg (at_most (suc i64_max) o) ≡ some i → InI64 i
unfolding at_most neg
negated-InI64 none i h = cc
negated-InI64 (some zero) (pos n) h = ground arith
negated-InI64 (some zero) (negsuc n) h = ground arith
negated-InI64 (some (suc m)) (pos n) h = ground arith
negated-InI64 (some (suc m)) (negsuc n) h = ground arith

positive-InI64 : (o : Option ℕ) (i : ℤ) → map_ℤ pos (at_most i64_max o) ≡ some i → InI64 i
unfolding at_most
positive-InI64 none i h = cc
positive-InI64 (some m) (pos n) h = ground arith
positive-InI64 (some m) (negsuc n) h = ground arith

parse_i64-InI64 : (s : Bytes) (i : ℤ) → parse_i64 s ≡ some i → InI64 i
unfolding parse_i64
parse_i64-InI64 [] i h = absurd (ground arith)
parse_i64-InI64 (c ∷ s) i h = elim (Bool-cases (c == b'-')) [
  | inl e ↦ negated-InI64 (parse_digits s) i (rw e at h)
  | inr e ↦ elim (Bool-cases (c == b'+')) [
    | inl f ↦ positive-InI64 (parse_digits s) i (rw (e, f) at h)
    | inr f ↦ positive-InI64 (parse_digits (c ∷ s)) i (rw (e, f) at h)
  ]
]

check_integer-parse :
    (s : Bytes) (v : Value)
    → check_integer s ≡ ok v
    → (i : ℤ) × (parse_i64 s ≡ some i) × (v ≡ integer i)
unfolding check_integer
check_integer-parse s v h = elim (Option-cases (parse_i64 s)) [
  | inl e ↦ absurd (ground arith)
  | inr (i, e) ↦ (i, e, ground arith)
]

check_integer-IsEncodable :
    (depth : ℕ) (s : Bytes) (v : Value)
    → depth ≤ max_nesting_depth
    → check_integer s ≡ ok v
    → IsEncodable depth v
check_integer-IsEncodable depth s v shallow h =
    let (i, read, e) = check_integer-parse s v h in
    rw e (unfold IsEncodable in (shallow, parse_i64-InI64 s i read))

check_integer-ends : (s : Bytes) → check_integer s ≢ out_of_fuel
unfolding check_integer
check_integer-ends s = ground arith

pub decode_integer-Lands :
    (depth : ℕ) (c : Cursor)
    → depth ≤ max_nesting_depth
    → Lands (IsEncodable depth) 1 c (decode_integer c)
unfolding decode_integer
decode_integer-Lands depth c shallow = Lands-bind _ (next-Lands c) λ b d _ m.
    Lands-bind _ (integer_loop-Lands (suc (remaining d)) [] d (omega arith)) λ s e _ n.
      Lands-raise (check_integer s) (check_integer-ends s) (Moved-trans 1 (omega arith) m n)
        (λ v. check_integer-IsEncodable depth s v shallow)

length_loop-Lands :
    (f : ℕ) (acc : Bytes) (c : Cursor)
    → remaining c < f
    → Lands (λ _. Unit) 1 c (length_loop f acc c)
unfolding length_loop
length_loop-Lands zero acc c h = elim h [ ]
length_loop-Lands (suc f) acc c h = Lands-bind _ (next-Lands c) λ b d _ m.
    elim (Bool-cases (b == b':')) [
      | inl e ↦ rw e (lands tt m)
      | inr e ↦ elim (Bool-cases (is_digit b)) [
        | inl g ↦
            rw (e, g)
              (Lands-after 1 (omega arith) m
                (length_loop-Lands f (acc ++ b ∷ []) d (omega (arith, Moved-remaining m))))
        | inr g ↦ rw (e, g) fails
      ]
    ]

check_length-le : (s : Bytes) (n : ℕ) → check_length s ≡ ok n → n ≤ max_string_length
unfolding check_length
check_length-le s n h = ground arith

check_length-ends : (s : Bytes) → check_length s ≢ out_of_fuel
unfolding check_length
check_length-ends s = ground arith

pub decode_bytes-Lands :
    (depth : ℕ) (c : Cursor)
    → depth ≤ max_nesting_depth
    → Lands (IsEncodable depth) 1 c (decode_bytes c)
unfolding decode_bytes
decode_bytes-Lands depth c shallow =
    Lands-bind _ (length_loop-Lands (suc (remaining c)) [] c (omega arith)) λ s d _ m.
      Lands-bind _
        (Lands-raise {P = λ len. len ≤ max_string_length} (check_length s) (check_length-ends s) m
          (check_length-le s))
        λ len e fits n. Lands-bind _ (read_bytes-Lands len e) λ b g short o.
          let fine : IsEncodable depth (bytes b) = unfold IsEncodable in (shallow, omega arith) in
          lands fine (Moved-trans 1 (omega arith) n o)
