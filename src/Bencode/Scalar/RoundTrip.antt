-- ===== src/Bencode/Scalar/RoundTrip.antt =====
-- Integers and byte strings that the encoder wrote are read back.
use rbitt.Prelude.{
  ℕ, zero, suc, ◌≤◌, ◌<◌, ◌≡◌, refl, ◌∙◌, true, false, [], ◌∷◌, ◌++◌, append_assoc, append-nil,
  Bytes, ◌==◌, length, length-append, All, arith, some,
}
use rbitt.Prelude.Int.{ℤ, pos, negsuc}
use rbitt.Bencode.Text.{format_usize, format_i64, is_utf8, parse_i64, parse_usize, i64_max}
use rbitt.Bencode.Text.Decimal.{
  IsDigit, format-Leading, format-IsDigit, format-zero, parse_usize-format, parse_digits-format,
  InI64, parse_i64-format, digits-is_utf8, format_i64-is_utf8,
}
use rbitt.Bencode.Value.{Value, bytes, integer, ok}
use rbitt.Bencode.Encode.Print.{print_bytes}
use rbitt.Bencode.Cursor.{remaining}
use rbitt.Bencode.Cursor.Window.{window, next-window, remaining-window, read_bytes-window}
use rbitt.Bencode.Scalar.{
  max_string_length, integer_loop, check_integer, decode_integer, length_loop, check_length,
  decode_bytes,
}

-- The loop stops at the first `e`, and returns what stood before it.
integer_loop-window :
    (s : Bytes) (f : ℕ) (acc done rest : Bytes)
    → All (λ c. (c == b'e') ≡ false) s
    → length s < f
    → integer_loop f acc (window done (s ++ b'e' ∷ rest))
      ≡ ok (acc ++ s, window (done ++ (s ++ b'e' ∷ [])) rest)
unfolding integer_loop
integer_loop-window s zero acc done rest h lt = elim lt [ ]
integer_loop-window [] (suc f) acc done rest h lt = simp (next-window, append-nil)
integer_loop-window (c ∷ s) (suc f) acc done rest h lt =
    rw (next-window done c (s ++ b'e' ∷ rest), h.0)
      (integer_loop-window s f (acc ++ c ∷ []) (done ++ c ∷ []) rest h.1 (omega arith)
        ∙ simp append_assoc)

IsDigit-ne-e : (s : Bytes) → All IsDigit s → All (λ c. (c == b'e') ≡ false) s
IsDigit-ne-e [] h = tt
IsDigit-ne-e (c ∷ s) h = (ground (arith, h.0), IsDigit-ne-e s h.1)

format_i64-ne-e : (i : ℤ) → All (λ c. (c == b'e') ≡ false) (format_i64 i)
unfolding format_i64
format_i64-ne-e (pos n) = IsDigit-ne-e (format_usize n) (format-IsDigit n)
format_i64-ne-e (negsuc n) = (refl, IsDigit-ne-e (format_usize (suc n)) (format-IsDigit (suc n)))

-- The checks pass what the encoder writes.
check_integer-positive :
    (n : ℕ) → suc n ≤ i64_max → check_integer (format_usize (suc n)) ≡ ok (integer (pos (suc n)))
check_integer-positive n h =
    let l = format-Leading (suc n) in
    let utf8 = rw l.split at (digits-is_utf8 (format_usize (suc n)) (format-IsDigit (suc n))) in
    let whole : parse_i64 (format_usize (suc n)) ≡ some (pos (suc n)) =
      unfold format_i64 in parse_i64-format (pos (suc n)) h in
    let read = rw l.split at whole in
    rw l.split (unfold check_integer in ground (arith, utf8, read, l.is_digit, l.zero_alone))

check_integer-negative :
    (n : ℕ) → n ≤ i64_max → check_integer (b'-' ∷ format_usize (suc n)) ≡ ok (integer (negsuc n))
check_integer-negative n h =
    let l = format-Leading (suc n) in
    let ascii : is_utf8 (b'-' ∷ format_usize (suc n)) ≡ true =
      unfold format_i64 in format_i64-is_utf8 (negsuc n) in
    let whole : parse_i64 (b'-' ∷ format_usize (suc n)) ≡ some (negsuc n) =
      unfold format_i64 in parse_i64-format (negsuc n) h in
    let utf8 = rw l.split at ascii in
    let read = rw l.split at whole in
    rw l.split (unfold check_integer in ground (arith, utf8, read, l.is_digit, l.zero_alone))

check_integer-format : (i : ℤ) → InI64 i → check_integer (format_i64 i) ≡ ok (integer i)
unfolding format_i64
check_integer-format (pos zero) h = rw format-zero (unfold check_integer is_utf8 parse_i64 in refl)
check_integer-format (pos (suc n)) h = check_integer-positive n h
check_integer-format (negsuc n) h = check_integer-negative n h

check_integer_plus :
    (n : ℕ) → n ≤ i64_max → check_integer (b'+' ∷ format_usize n) ≡ ok (integer (pos n))
unfolding check_integer parse_i64 is_utf8
check_integer_plus n h =
    let utf8 : is_utf8 (format_usize n) ≡ true =
      digits-is_utf8 (format_usize n) (format-IsDigit n) in
    ground (arith, utf8, parse_digits-format n)

-- A text that passes the checks is read, from anywhere in the input.
pub decode_integer-text :
    (s : Bytes) (v : Value) (done rest : Bytes)
    → All (λ c. (c == b'e') ≡ false) s
    → check_integer s ≡ ok v
    → decode_integer (window done (b'i' ∷ (s ++ b'e' ∷ rest)))
      ≡ ok (v, window (done ++ b'i' ∷ (s ++ b'e' ∷ [])) rest)
unfolding decode_integer
decode_integer-text s v done rest plain passes =
    let room : length s < suc (remaining (window (done ++ b'i' ∷ []) (s ++ b'e' ∷ rest))) = omega (
      arith,
      remaining-window (done ++ b'i' ∷ []) (s ++ b'e' ∷ rest),
      length-append s (b'e' ∷ rest),
    ) in
    rw
      (
        next-window done b'i' (s ++ b'e' ∷ rest),
        integer_loop-window s _ [] (done ++ b'i' ∷ []) rest plain room,
        passes,
      )
      (simp append_assoc)

-- What the encoder writes of an `i64` is read back.
pub decode_integer-print :
    (i : ℤ) (done rest : Bytes)
    → InI64 i
    → decode_integer (window done (b'i' ∷ (format_i64 i ++ b'e' ∷ rest)))
      ≡ ok (integer i, window (done ++ b'i' ∷ (format_i64 i ++ b'e' ∷ [])) rest)
decode_integer-print i done rest h =
    decode_integer-text (format_i64 i) (integer i) done rest (format_i64-ne-e i)
      (check_integer-format i h)

-- The checks also pass digits behind a plus sign.
pub decode_integer_plus :
    (n : ℕ) (done rest : Bytes)
    → n ≤ i64_max
    → decode_integer (window done (b'i' ∷ b'+' ∷ (format_usize n ++ b'e' ∷ rest)))
      ≡ ok (integer (pos n), window (done ++ b'i' ∷ b'+' ∷ (format_usize n ++ b'e' ∷ [])) rest)
decode_integer_plus n done rest h =
    decode_integer-text (b'+' ∷ format_usize n) (integer (pos n)) done rest
      (refl, IsDigit-ne-e (format_usize n) (format-IsDigit n)) (check_integer_plus n h)

-- The loop stops at the first `:`, and returns the digits before it.
length_loop-window :
    (s : Bytes) (f : ℕ) (acc done rest : Bytes)
    → All IsDigit s
    → length s < f
    → length_loop f acc (window done (s ++ b':' ∷ rest))
      ≡ ok (acc ++ s, window (done ++ (s ++ b':' ∷ [])) rest)
unfolding length_loop
length_loop-window s zero acc done rest h lt = elim lt [ ]
length_loop-window [] (suc f) acc done rest h lt = simp (next-window, append-nil)
length_loop-window (c ∷ s) (suc f) acc done rest h lt =
    let plain : (c == b':') ≡ false = ground (arith, h.0) in
    rw (next-window done c (s ++ b':' ∷ rest), plain, h.0)
      (length_loop-window s f (acc ++ c ∷ []) (done ++ c ∷ []) rest h.1 (omega arith)
        ∙ simp append_assoc)

check_length-format : (n : ℕ) → n ≤ max_string_length → check_length (format_usize n) ≡ ok n
check_length-format zero h = rw format-zero (unfold check_length is_utf8 parse_usize in refl)
check_length-format (suc n) h =
    let l = format-Leading (suc n) in
    let utf8 = rw l.split at (digits-is_utf8 (format_usize (suc n)) (format-IsDigit (suc n))) in
    let read = rw l.split at (parse_usize-format (suc n) (omega arith)) in
    rw l.split (unfold check_length in ground (arith, utf8, read, l.is_digit, l.zero_alone))

-- What the encoder writes of a byte string is read back, from anywhere in the input.
pub decode_bytes-print :
    (b done rest : Bytes)
    → length b ≤ max_string_length
    → decode_bytes (window done (print_bytes b ++ rest))
      ≡ ok (bytes b, window (done ++ print_bytes b) rest)
unfolding decode_bytes
decode_bytes-print b done rest h =
    let text = format_usize (length b) in
    let room : length text < suc (remaining (window done (text ++ b':' ∷ (b ++ rest)))) = omega (
      arith,
      remaining-window done (text ++ b':' ∷ (b ++ rest)),
      length-append text (b':' ∷ (b ++ rest)),
    ) in
    rw
      (
        append_assoc text (b':' ∷ b) rest,
        length_loop-window text _ [] done (b ++ rest) (format-IsDigit (length b)) room,
        check_length-format (length b) h,
        read_bytes-window (done ++ (text ++ b':' ∷ [])) b rest,
      )
      (simp append_assoc)
