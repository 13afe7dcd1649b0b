-- ===== src/Bencode/Text/Decimal.antt =====
-- Decimal text: what is printed is digits, is UTF-8, starts with 0 only for 0, and is read back.
use rbitt.Prelude.{
  Bool-cases, inl, inr, ℕ, zero, suc, ◌+◌, ◌-◌, ◌*◌, ◌/◌, ◌%◌, ◌≤◌, ◌≡◌, refl, ◌∙◌, true, some, [],
  ◌∷◌, ◌++◌, Bytes, ltb, All, arith,
}
use rbitt.Prelude.Int.{ℤ, pos, negsuc}
use rbitt.Bencode.Text.{
  digits, format_usize, format_i64, is_digit, scan, parse_digits, i64_max, usize_max, parse_i64,
  parse_usize, is_utf8,
}

abbrev pub IsDigit : ℕ → Type 0
IsDigit c = is_digit c ≡ true

All-append-digit : (s : Bytes) (c : ℕ) → All IsDigit s → IsDigit c → All IsDigit (s ++ c ∷ [])
All-append-digit [] c h d = (d, tt)
All-append-digit (x ∷ s) c h d = (h.0, All-append-digit s c h.1 d)

digits-IsDigit : (f n : ℕ) → All IsDigit (digits f n)
unfolding digits
digits-IsDigit zero n = (ground arith, tt)
digits-IsDigit (suc f) n =
    ground (arith, All-append-digit (digits f (n / 10)) (b'0' + n % 10) (digits-IsDigit f (n / 10)))

scan-append :
    (s : Bytes) (c n : ℕ) {m : ℕ}
    → IsDigit c
    → scan s n ≡ some m
    → scan (s ++ c ∷ []) n ≡ some (m * 10 + (c - b'0'))
unfolding scan
scan-append [] c n d h = ground arith
scan-append (x ∷ s) c n {m} d h = ground (arith, scan-append s c (n * 10 + (x - b'0')) {m = m} d)

scan-digits : (f n : ℕ) → n ≤ f → scan (digits f n) 0 ≡ some n
unfolding digits
scan-digits zero n h = unfold scan in ground arith
scan-digits (suc f) n h = elim (Bool-cases (ltb n 10)) [
  | inl e ↦ rw e (unfold scan in ground arith)
  | inr e ↦ rw e (
      scan-append (digits f (n / 10)) (b'0' + n % 10) 0 (ground arith)
        (scan-digits f (n / 10) (ground arith))
      ∙ ground arith)
]

-- The first digit, which is 0 only for 0.
pub record Leading (s : Bytes) (n : ℕ) : Type 0 where
  pub first : ℕ
  pub rest : Bytes
  pub split : s ≡ first ∷ rest
  pub is_digit : IsDigit first
  pub rest_digits : All IsDigit rest
  pub zero_alone : first ≡ b'0' → n ≡ 0

digits-Leading : (f n : ℕ) → n ≤ f → Leading (digits f n) n
unfolding digits
digits-Leading zero n h = record {
  first = b'0' + n % 10;
  rest = [];
  split = refl;
  is_digit = ground arith;
  rest_digits = tt;
  zero_alone = λ e. omega arith;
}
digits-Leading (suc f) n h = elim (Bool-cases (ltb n 10)) [
  | inl e ↦ record {
    first = b'0' + n;
    rest = [];
    split = rw e;
    is_digit = ground arith;
    rest_digits = tt;
    zero_alone = λ e. omega arith;
  }
  | inr e ↦
      let ih = digits-Leading f (n / 10) (ground arith) in
      record {
        first = ih.first;
        rest = ih.rest ++ (b'0' + n % 10) ∷ [];
        split = rw (e, ih.split);
        is_digit = ih.is_digit;
        rest_digits = All-append-digit ih.rest (b'0' + n % 10) ih.rest_digits (ground arith);
        zero_alone = λ z. ground (arith, ih.zero_alone z);
      }
]

pub format-Leading : (n : ℕ) → Leading (format_usize n) n
unfolding format_usize
format-Leading n = digits-Leading n n (omega arith)

pub format-IsDigit : (n : ℕ) → All IsDigit (format_usize n)
unfolding format_usize
format-IsDigit n = digits-IsDigit n n

pub format-zero : format_usize 0 ≡ b'0' ∷ []
unfolding format_usize
format-zero = refl

pub parse_digits-format : (n : ℕ) → parse_digits (format_usize n) ≡ some n
parse_digits-format n =
    let l = format-Leading n in
    let whole : scan (format_usize n) 0 ≡ some n =
      unfold format_usize in scan-digits n n (omega arith) in
    rw l.split (unfold parse_digits in rw l.split at whole)

-- A `usize` is read back from its print.
pub parse_usize-format : (n : ℕ) → n ≤ usize_max → parse_usize (format_usize n) ≡ some n
parse_usize-format n h =
    let l = format-Leading n in
    let read : parse_digits (l.first ∷ l.rest) ≡ some n = rw l.split at (parse_digits-format n) in
    rw l.split (unfold parse_usize in ground (arith, read, l.is_digit))

abbrev pub InI64 : ℤ → Type 0
InI64 (pos n) = n ≤ i64_max
InI64 (negsuc n) = n ≤ i64_max

-- An `i64` is read back from its print.
pub parse_i64-format : (i : ℤ) → InI64 i → parse_i64 (format_i64 i) ≡ some i
unfolding format_i64
parse_i64-format (pos n) h =
    let l = format-Leading n in
    let read : parse_digits (l.first ∷ l.rest) ≡ some n = rw l.split at (parse_digits-format n) in
    rw l.split (unfold parse_i64 in ground (arith, read, l.is_digit))
parse_i64-format (negsuc n) h = unfold parse_i64 in ground (arith, parse_digits-format (suc n))

-- Digits are ASCII, so the text is UTF-8.
pub digits-is_utf8 : (s : Bytes) → All IsDigit s → is_utf8 s ≡ true
unfolding is_utf8
digits-is_utf8 [] h = refl
digits-is_utf8 (c ∷ s) h = ground (arith, digits-is_utf8 s h.1)

pub format_i64-is_utf8 : (i : ℤ) → is_utf8 (format_i64 i) ≡ true
unfolding format_i64
format_i64-is_utf8 (pos n) = digits-is_utf8 (format_usize n) (format-IsDigit n)
format_i64-is_utf8 (negsuc n) =
    let rest = digits-is_utf8 (format_usize (suc n)) (format-IsDigit (suc n)) in
    unfold is_utf8 in rest
