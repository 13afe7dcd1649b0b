-- ===== src/Peer/Wire.antt =====
-- What src-tauri/crates/oxidebt-peer/src/message.rs uses of the `bytes` crate and of
-- `from_be_bytes`: numbers of fixed width, the highest byte first.
use rbitt.Prelude.{
  ℕ, ◌+◌, ◌*◌, ◌/◌, ◌%◌, ◌^◌, ◌≤◌, ◌<◌, ◌≡◌, [], ◌∷◌, ◌++◌, Bytes, IsByte, All, length, arith,
}

-- `put_u32`
abbrev pub put_u32 : ℕ → Bytes
put_u32 n = n / 2 ^ 24 % 256 ∷ n / 2 ^ 16 % 256 ∷ n / 2 ^ 8 % 256 ∷ n % 256 ∷ []

-- `get_u32`, and what it leaves. On fewer than four bytes the source panics; every use is behind a
-- check of the length.
unfoldable pub get_u32 : Bytes → ℕ × Bytes
get_u32 (a ∷ b ∷ c ∷ d ∷ rest) = (a * 2 ^ 24 + b * 2 ^ 16 + c * 2 ^ 8 + d, rest)
get_u32 _ = (0, [])

-- `put_u16`
abbrev pub put_u16 : ℕ → Bytes
put_u16 n = n / 2 ^ 8 % 256 ∷ n % 256 ∷ []

-- `u16::from_be_bytes` of the first two bytes
unfoldable pub get_u16 : Bytes → ℕ
get_u16 (a ∷ b ∷ rest) = a * 2 ^ 8 + b
get_u16 _ = 0

pub get_u32-put_u32 : (n : ℕ) (rest : Bytes) → n < 2 ^ 32 → get_u32 (put_u32 n ++ rest) ≡ (n, rest)
unfolding get_u32
get_u32-put_u32 n rest h = ground arith

pub put_u32-get_u32 :
    (bs : Bytes) → All IsByte bs → 4 ≤ length bs → put_u32 (get_u32 bs).0 ++ (get_u32 bs).1 ≡ bs
unfolding get_u32
put_u32-get_u32 [] all h = absurd (omega arith)
put_u32-get_u32 (a ∷ []) all h = absurd (omega arith)
put_u32-get_u32 (a ∷ b ∷ []) all h = absurd (omega arith)
put_u32-get_u32 (a ∷ b ∷ c ∷ []) all h = absurd (omega arith)
put_u32-get_u32 (a ∷ b ∷ c ∷ d ∷ rest) all h = ground arith

pub get_u32-bounds :
    (bs : Bytes) → All IsByte bs → ((get_u32 bs).0 < 2 ^ 32) × All IsByte (get_u32 bs).1
unfolding get_u32
get_u32-bounds [] all = (omega arith, tt)
get_u32-bounds (a ∷ []) all = (omega arith, tt)
get_u32-bounds (a ∷ b ∷ []) all = (omega arith, tt)
get_u32-bounds (a ∷ b ∷ c ∷ []) all = (omega arith, tt)
get_u32-bounds (a ∷ b ∷ c ∷ d ∷ rest) all = (omega arith, all.1.1.1.1)

pub length-get_u32 : (bs : Bytes) → 4 ≤ length bs → length bs ≡ 4 + length (get_u32 bs).1
unfolding get_u32
length-get_u32 [] h = absurd (omega arith)
length-get_u32 (a ∷ []) h = absurd (omega arith)
length-get_u32 (a ∷ b ∷ []) h = absurd (omega arith)
length-get_u32 (a ∷ b ∷ c ∷ []) h = absurd (omega arith)
length-get_u32 (a ∷ b ∷ c ∷ d ∷ rest) h = omega arith

pub get_u16-put_u16 : (n : ℕ) → n < 2 ^ 16 → get_u16 (put_u16 n) ≡ n
unfolding get_u16
get_u16-put_u16 n h = omega arith

pub put_u16-get_u16 : (bs : Bytes) → All IsByte bs → length bs ≡ 2 → put_u16 (get_u16 bs) ≡ bs
unfolding get_u16
put_u16-get_u16 [] all h = absurd (omega arith)
put_u16-get_u16 (a ∷ []) all h = absurd (omega arith)
put_u16-get_u16 (a ∷ b ∷ []) all h = ground arith
put_u16-get_u16 (a ∷ b ∷ c ∷ rest) all h = absurd (omega arith)

pub get_u16-lt : (bs : Bytes) → All IsByte bs → get_u16 bs < 2 ^ 16
unfolding get_u16
get_u16-lt [] all = omega arith
get_u16-lt (a ∷ []) all = omega arith
get_u16-lt (a ∷ b ∷ rest) all = omega arith
