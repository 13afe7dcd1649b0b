-- ===== src/Bencode/Text.antt =====
-- What the crate uses of the standard library's text: decimal printing (`to_string`), decimal
-- parsing (`str::parse` for `i64` and for a 64-bit `usize`), and the check of `str::from_utf8`.
pub mod Decimal
use rbitt.Prelude.{
  ℕ, zero, suc, ◌+◌, ◌-◌, ◌*◌, ◌/◌, ◌%◌, ◌^◌, Bool, true, false, ◌&&◌, Option, none, some, [], ◌∷◌,
  ◌++◌, Bytes, ltb, leb, ◌==◌, if◌then◌else◌,
}
use rbitt.Prelude.Int.{ℤ, pos, negsuc, neg}

-- The decimal digits of `n`, for any fuel of at least `n`.
unfoldable pub digits : ℕ → ℕ → Bytes
digits zero n = (b'0' + n % 10) ∷ []
digits (suc f) n =
    let rest = digits f (n / 10) in
    if ltb n 10 then (b'0' + n) ∷ [] else rest ++ (b'0' + n % 10) ∷ []

-- `usize::to_string`
unfoldable pub format_usize : ℕ → Bytes
unfolding digits
format_usize n = digits n n

-- `i64::to_string`
unfoldable pub format_i64 : ℤ → Bytes
unfolding format_usize
format_i64 (pos n) = format_usize n
format_i64 (negsuc n) = b'-' ∷ format_usize (suc n)

abbrev pub is_digit : ℕ → Bool
is_digit c = leb b'0' c && leb c b'9'

unfoldable pub scan : Bytes → ℕ → Option ℕ
scan [] n = some n
scan (c ∷ s) n = if is_digit c then scan s (n * 10 + (c - b'0')) else none

-- One or more digits. The callers below refuse a number out of range, so no bound stands here.
unfoldable pub parse_digits : Bytes → Option ℕ
unfolding scan
parse_digits [] = none
parse_digits (c ∷ s) = scan (c ∷ s) 0

abbrev pub i64_max : ℕ
i64_max = 2 ^ 63 - 1

abbrev pub usize_max : ℕ
usize_max = 2 ^ 64 - 1

unfoldable pub at_most : ℕ → Option ℕ → Option ℕ
at_most bound none = none
at_most bound (some n) = if leb n bound then some n else none

abbrev pub map_ℤ : (ℕ → ℤ) → Option ℕ → Option ℤ
map_ℤ f none = none
map_ℤ f (some n) = some (f n)

-- `str::parse::<i64>`: an optional sign, then digits, in range.
unfoldable pub parse_i64 : Bytes → Option ℤ
unfolding parse_digits at_most neg
parse_i64 [] = none
parse_i64 (c ∷ s) =
    if c == b'-'
    then map_ℤ neg (at_most (suc i64_max) (parse_digits s))
    else if c == b'+'
    then map_ℤ pos (at_most i64_max (parse_digits s))
    else map_ℤ pos (at_most i64_max (parse_digits (c ∷ s)))

-- `str::parse::<usize>`: an optional plus sign, then digits, in range.
unfoldable pub parse_usize : Bytes → Option ℕ
unfolding parse_digits at_most
parse_usize [] = none
parse_usize (c ∷ s) =
    if c == b'+'
    then at_most usize_max (parse_digits s)
    else at_most usize_max (parse_digits (c ∷ s))

-- The bytes that may follow a first byte: the range of the next one, and how many there are.
unfoldable pub lead : ℕ → Option (ℕ × ℕ × ℕ)
lead b =
    if ltb b 0x80
    then some (0, 0, 0)
    else if ltb b 0xc2
    then none
    else if ltb b 0xe0
    then some (0x80, 0xbf, 1)
    else if b == 0xe0
    then some (0xa0, 0xbf, 2)
    else if b == 0xed
    then some (0x80, 0x9f, 2)
    else if ltb b 0xf0
    then some (0x80, 0xbf, 2)
    else if b == 0xf0
    then some (0x90, 0xbf, 3)
    else if ltb b 0xf4
    then some (0x80, 0xbf, 3)
    else if b == 0xf4
    then some (0x80, 0x8f, 3)
    else none

-- `left` more bytes belong to the current character, the next of them between `lo` and `hi`.
unfoldable pub utf8_from : ℕ → ℕ → ℕ → Bytes → Bool
unfolding lead
utf8_from lo hi zero [] = true
utf8_from lo hi (suc left) [] = false
utf8_from lo hi zero (b ∷ s) = elim (lead b) [
  | none ↦ false
  | some (lo', hi', left) ↦ utf8_from lo' hi' left s
]
utf8_from lo hi (suc left) (b ∷ s) = leb lo b && leb b hi && utf8_from 0x80 0xbf left s

-- `std::str::from_utf8(s).is_ok()`
unfoldable pub is_utf8 : Bytes → Bool
unfolding utf8_from
is_utf8 s = utf8_from 0 0 0 s
