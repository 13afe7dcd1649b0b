-- ===== src/Prelude/Xor.antt =====
-- The exclusive or of two numbers, digit by digit.
use Prim.Native.Nat.{
  ℕ, zero, suc, ◌+◌, ◌*◌, ◌/◌, ◌%◌, ◌^◌, ◌≤◌, ◌<◌, digits, differ, bit_xor, bit_xor-bitwise,
}
use mathlib.Core.Path.{◌≡◌, refl, sym, ap, ap₂, ◌∙◌}
use mathlib.Core.Bool.{not}
use native.Mathlib.Nat.{div-div-eq-div-mul, pow-succ'}
use native.Mathlib.Omega.{arith}
use rbitt.Prelude.Tests.{◌==◌, if◌then◌else◌}
use rbitt.Prelude.Bits.{test_bit, bit_and-one}

abbrev xor_digits : ℕ → ℕ → ℕ → ℕ
xor_digits = digits (λ b. b) differ

no_digits : (n b : ℕ) → xor_digits n 0 b ≡ b
no_digits zero b = refl
no_digits (suc n) b = refl

-- A count of digits that is long enough makes no difference.
enough_digits : (n m a b : ℕ) → a ≤ n → a ≤ m → xor_digits n a b ≡ xor_digits m a b
enough_digits n m zero b p q = no_digits n b ∙ sym (no_digits m b)
enough_digits zero m (suc a) b p q = absurd (omega arith)
enough_digits (suc n) zero (suc a) b p q = absurd (omega arith)
enough_digits (suc n) (suc m) (suc a) b p q = ground (arith, enough_digits n m (suc a / 2) (b / 2))

-- The lowest digit, and the others.
xor_step : (a b : ℕ) → bit_xor a b ≡ bit_xor (a / 2) (b / 2) * 2 + differ (a % 2) (b % 2)
xor_step zero b = omega (arith, bit_xor-bitwise 0 b, bit_xor-bitwise 0 (b / 2))
xor_step (suc a) b = omega (
  arith,
  bit_xor-bitwise (suc a) b,
  bit_xor-bitwise (suc a / 2) (b / 2),
  enough_digits a (suc a / 2) (suc a / 2) (b / 2) (omega arith) (omega arith),
)

differ-lt : (x y : ℕ) → x < 2 → y < 2 → differ x y < 2
differ-lt zero y hx hy = hy
differ-lt (suc zero) zero hx hy = omega arith
differ-lt (suc zero) (suc zero) hx hy = omega arith
differ-lt _ _ hx hy = omega arith

-- `x` without its lowest `k` digits.
halved : ℕ → ℕ → ℕ
halved zero x = x
halved (suc k) x = halved k (x / 2)

halved-xor : (k a b : ℕ) → halved k (bit_xor a b) ≡ bit_xor (halved k a) (halved k b)
unfolding halved
halved-xor zero a b = refl
halved-xor (suc k) a b =
    let e : bit_xor a b / 2 ≡ bit_xor (a / 2) (b / 2) =
      omega (arith, xor_step a b, differ-lt (a % 2) (b % 2) (omega arith) (omega arith)) in
    rw e (halved-xor k (a / 2) (b / 2))

halved_eight : (x : ℕ) → halved 8 x ≡ x / 256
unfolding halved
halved_eight x = omega arith

pub bit_xor-lt : (a b : ℕ) → a < 256 → b < 256 → bit_xor a b < 256
bit_xor-lt a b ha hb =
    let none_a : halved 8 a ≡ 0 = omega (arith, halved_eight a) in
    let none_b : halved 8 b ≡ 0 = omega (arith, halved_eight b) in
    let e : halved 8 (bit_xor a b) ≡ 0 = halved-xor 8 a b ∙ ap₂ bit_xor none_a none_b in
    omega (arith, e, halved_eight (bit_xor a b))

halved-lt : (k x : ℕ) → x < 256 → halved k x < 256
unfolding halved
halved-lt zero x h = h
halved-lt (suc k) x h = halved-lt k (x / 2) (omega arith)

halved_div : (k x : ℕ) → halved k x ≡ x / 2 ^ k
unfolding halved
halved_div zero x = omega arith
halved_div (suc k) x =
    halved_div k (x / 2) ∙ div-div-eq-div-mul x 2 (2 ^ k) ∙ ap (λ d. x / d) (sym (pow-succ' 2 k))

-- A bit of a byte is the lowest digit once those below it are gone.
test_bit-halved : (b k : ℕ) → b < 256 → test_bit b k ≡ (halved k b % 2 == 1)
test_bit-halved b k hb =
    rw (sym (halved_div k b)) (ap (λ d. d == 1) (bit_and-one (halved k b) (halved-lt k b hb)))

xor_bools :
    (x y : ℕ) → x < 2 → y < 2 → (differ x y == 1) ≡ (if x == 1 then not (y == 1) else y == 1)
xor_bools zero y hx hy = refl
xor_bools (suc zero) zero hx hy = refl
xor_bools (suc zero) (suc zero) hx hy = refl
xor_bools _ _ hx hy = absurd (omega arith)

-- A bit of the exclusive or of two bytes is set where the bits of the two differ.
pub test_bit-xor :
    (a b k : ℕ)
    → a < 256
    → b < 256
    → test_bit (bit_xor a b) k ≡ (if test_bit a k then not (test_bit b k) else test_bit b k)
test_bit-xor a b k ha hb =
    let x = halved k a in
    let y = halved k b in
    let digit : halved k (bit_xor a b) % 2 ≡ differ (x % 2) (y % 2) = omega (
      arith,
      halved-xor k a b,
      xor_step x y,
      differ-lt (x % 2) (y % 2) (omega arith) (omega arith),
    ) in
    test_bit-halved (bit_xor a b) k (bit_xor-lt a b ha hb)
    ∙ ap (λ d. d == 1) digit
    ∙ xor_bools (x % 2) (y % 2) (omega arith) (omega arith)
    ∙ sym (ap₂ (λ p q. if p then not q else q) (test_bit-halved a k ha) (test_bit-halved b k hb))

differ-zero : (x y : ℕ) → x < 2 → y < 2 → differ x y ≡ 0 → x ≡ y
differ-zero zero y hx hy e = omega (arith, e)
differ-zero (suc zero) zero hx hy e = omega (arith, e)
differ-zero (suc zero) (suc zero) hx hy e = refl
differ-zero _ _ hx hy e = absurd (omega arith)

eq-of-xor_within : (n a b : ℕ) → a ≤ n → b ≤ n → bit_xor a b ≡ 0 → a ≡ b
eq-of-xor_within zero a b p q h = omega arith
eq-of-xor_within (suc n) a b p q h = omega (
  arith,
  xor_step a b,
  eq-of-xor_within n (a / 2) (b / 2) (omega arith) (omega arith) (omega (arith, xor_step a b)),
  differ-zero (a % 2) (b % 2) (omega arith) (omega arith) (omega (arith, xor_step a b)),
)

pub eq-of-bit_xor : (a b : ℕ) → bit_xor a b ≡ 0 → a ≡ b
eq-of-bit_xor a b h = eq-of-xor_within (a + b) a b (omega arith) (omega arith) h
