-- ===== src/Prelude/Bits.antt =====
-- Single bits of a byte. A law for all bytes and all bit positions is a table, checked by evaluation.
use Prim.Native.Nat.{ℕ, zero, suc, ◌-◌, ◌*◌, ◌/◌, ◌%◌, ◌^◌, ◌<◌, bit_and, bit_or}
use mathlib.Core.Path.{◌≡◌, refl}
use mathlib.Core.Logic.{◌≢◌, inl, inr}
use mathlib.Core.Bool.{Bool, true, false, ◌&&◌, ◌||◌, not}
use native.Mathlib.Omega.{arith}
use rbitt.Prelude.Tests.{◌==◌, leb, ltb, ltb→lt, ==_iff, if◌then◌else◌, Bool-cases}
use rbitt.Prelude.Counting.{count_below, all-of-count_below}

-- `(b >> k) & 1 == 1`
abbrev pub test_bit : ℕ → ℕ → Bool
test_bit b k = bit_and (b / 2 ^ k) 1 == 1

-- `b |= 1 << k`
abbrev pub set_bit : ℕ → ℕ → ℕ
set_bit b k = bit_or b (2 ^ k)

-- `b &= !(1 << k)`, on 8 bits
abbrev pub clear_bit : ℕ → ℕ → ℕ
clear_bit b k = bit_and b (255 - 2 ^ k)

-- `b & (0xFFu8 << k)`, on 8 bits
abbrev pub clear_low : ℕ → ℕ → ℕ
clear_low b k = bit_and b (0xff * 2 ^ k % 256)

same : Bool → Bool → Bool
same true b = b
same false b = not b

same→eq : (a b : Bool) → same a b ≡ true → a ≡ b
unfolding same
same→eq true b h = ground arith
same→eq false b h = ground arith

-- All numbers below `n` pass: as many pass as there are.
every : ℕ → (ℕ → Bool) → Bool
every n p = count_below n p == n

every-at : (n : ℕ) (p : ℕ → Bool) (x : ℕ) → every n p ≡ true → x < n → p x ≡ true
unfolding every count_below
every-at n p x h = all-of-count_below n p ((==_iff (count_below n p) n).0 h) x

table : (ℕ → ℕ → ℕ → Bool) → Bool
table p = every 256 (λ b. every 8 (λ k. every 8 (p b k)))

table_sound :
    (p : ℕ → ℕ → ℕ → Bool) → table p ≡ true → (b k j : ℕ) → b < 256 → k < 8 → j < 8 → p b k j ≡ true
unfolding table
table_sound p h b k j hb hk hj = every-at 8 _ j (every-at 8 _ k (every-at 256 _ b h hb) hk) hj

pub test-set_bit :
    (b k j : ℕ) → b < 256 → k < 8 → j < 8 → test_bit (set_bit b k) j ≡ (k == j || test_bit b j)
unfolding table every count_below same
test-set_bit b k j hb hk hj = same→eq _ _ (
    table_sound (λ b k j. same (test_bit (set_bit b k) j) (k == j || test_bit b j)) refl b k j hb hk
      hj)

pub test-clear_bit :
    (b k j : ℕ)
    → b < 256
    → k < 8
    → j < 8
    → test_bit (clear_bit b k) j ≡ (not (k == j) && test_bit b j)
unfolding table every count_below same
test-clear_bit b k j hb hk hj = same→eq _ _ (
    table_sound (λ b k j. same (test_bit (clear_bit b k) j) (not (k == j) && test_bit b j)) refl b k
      j hb hk hj)

pub test-clear_low :
    (b k j : ℕ) → b < 256 → k < 8 → j < 8 → test_bit (clear_low b k) j ≡ (leb k j && test_bit b j)
unfolding table every count_below same
test-clear_low b k j hb hk hj = same→eq _ _ (
    table_sound (λ b k j. same (test_bit (clear_low b k) j) (leb k j && test_bit b j)) refl b k j hb
      hk hj)

ranges : (ℕ → ℕ → ℕ) → Bool
ranges f = every 256 (λ b. every 8 (λ k. ltb (f b k) 256))

ranges_sound : (f : ℕ → ℕ → ℕ) → ranges f ≡ true → (b k : ℕ) → b < 256 → k < 8 → f b k < 256
unfolding ranges
ranges_sound f h b k hb hk = ltb→lt _ _ (every-at 8 _ k (every-at 256 _ b h hb) hk)

pub set_bit-lt : (b k : ℕ) → b < 256 → k < 8 → set_bit b k < 256
unfolding ranges every count_below
set_bit-lt = ranges_sound set_bit refl

pub clear_bit-lt : (b k : ℕ) → b < 256 → k < 8 → clear_bit b k < 256
unfolding ranges every count_below
clear_bit-lt = ranges_sound clear_bit refl

pub clear_low-lt : (b k : ℕ) → b < 256 → k < 8 → clear_low b k < 256
unfolding ranges every count_below
clear_low-lt = ranges_sound clear_low refl

-- `u8::count_ones`
abbrev pub count_ones : ℕ → ℕ
count_ones b = count_below 8 (test_bit b)

zero_ones : ℕ → Bool
zero_ones b = (b == 0) || ltb 0 (count_below 8 (test_bit b))

-- A byte with no bit set is 0.
pub eq_zero-of-count_ones : (b : ℕ) → b < 256 → count_below 8 (test_bit b) ≡ 0 → b ≡ 0
unfolding every zero_ones count_below
eq_zero-of-count_ones b hb h = ground (arith, every-at 256 zero_ones b refl hb)

pub test_bit-zero : (k : ℕ) → k < 8 → test_bit 0 k ≡ false
unfolding every count_below same
test_bit-zero k h = same→eq _ _ (every-at 8 (λ k. same (test_bit 0 k) false) k refl h)

pub test_bit-ones : (k : ℕ) → k < 8 → test_bit 0xff k ≡ true
unfolding every count_below
test_bit-ones k h = every-at 8 (test_bit 0xff) k refl h

-- Setting a bit that is set, or clearing one that is clear, leaves the byte.
pub set_bit-of-test : (b k : ℕ) → b < 256 → k < 8 → test_bit b k ≡ true → set_bit b k ≡ b
unfolding every count_below
set_bit-of-test b k hb hk h = ground (
  arith,
  every-at 8 (λ k. not (test_bit b k) || set_bit b k == b) k
      (every-at 256 (λ b. every 8 (λ k. not (test_bit b k) || set_bit b k == b)) b refl hb) hk,
)

pub clear_bit-of-test : (b k : ℕ) → b < 256 → k < 8 → test_bit b k ≡ false → clear_bit b k ≡ b
unfolding every count_below
clear_bit-of-test b k hb hk h = ground (
  arith,
  every-at 8 (λ k. test_bit b k || clear_bit b k == b) k
      (every-at 256 (λ b. every 8 (λ k. test_bit b k || clear_bit b k == b)) b refl hb) hk,
)

-- The lowest bit of a byte.
pub bit_and-one : (b : ℕ) → b < 256 → bit_and b 1 ≡ b % 2
unfolding every count_below
bit_and-one b h = (==_iff _ _).0 (every-at 256 (λ b. bit_and b 1 == b % 2) b refl h)

-- `u8::leading_zeros`: the bits are looked at from the highest down.
unfoldable pub zeros_from : ℕ → ℕ → ℕ
zeros_from zero b = 0
zeros_from (suc k) b = let below = zeros_from k b in if test_bit b k then 0 else suc below

abbrev pub leading_zeros : ℕ → ℕ
leading_zeros b = zeros_from 8 b

leads : ℕ → Bool
leads b =
    (b == 0)
    || (ltb (leading_zeros b) 8
        && test_bit b (7 - leading_zeros b)
        && every 8 (λ j. not (ltb j (leading_zeros b)) || not (test_bit b (7 - j))))

-- The leading zeros of a byte other than 0 end at its highest bit.
leading_zeros_leads : (b : ℕ) → b < 256 → leads b ≡ true
unfolding leads every count_below zeros_from
leading_zeros_leads b h = every-at 256 leads b refl h

pub leading_zeros-lt : (b : ℕ) → b < 256 → b ≢ 0 → leading_zeros b < 8
unfolding leads
leading_zeros-lt b h n = ground (arith, leading_zeros_leads b h)

pub test_bit-leading_zeros : (b : ℕ) → b < 256 → b ≢ 0 → test_bit b (7 - leading_zeros b) ≡ true
unfolding leads
test_bit-leading_zeros b h n = ground (arith, leading_zeros_leads b h)

pub test_bit-before_leading :
    (b j : ℕ) → b < 256 → j < leading_zeros b → leading_zeros b < 8 → test_bit b (7 - j) ≡ false
unfolding leads zeros_from
test_bit-before_leading b j h lt small = elim (Bool-cases (b == 0)) [
  | inl e ↦ rw ((==_iff b 0).0 e) (test_bit-zero (7 - j) (omega arith))
  | inr e ↦ ground (
    arith,
    leading_zeros_leads b h,
    every-at 8 (λ j. not (ltb j (leading_zeros b)) || not (test_bit b (7 - j))) j,
  )
]
