-- ===== src/Prelude/Counting.antt =====
-- How many indices below a bound pass a test.
use Prim.Native.Nat.{ℕ, zero, suc, ◌+◌, ◌≤◌, ◌<◌}
use mathlib.Core.Path.{◌≡◌, refl}
use mathlib.Core.Logic.{◌≢◌}
use mathlib.Core.Bool.{Bool, true, false}
use native.Mathlib.Omega.{arith}
use native.Mathlib.Nat.{zero-add, suc-add}
use rbitt.Prelude.Tests.{if◌then◌else◌}

unfoldable pub count_below : ℕ → (ℕ → Bool) → ℕ
count_below zero p = 0
count_below (suc n) p = count_below n p + (if p n then 1 else 0)

pub count_below-ext :
    (n : ℕ) (p q : ℕ → Bool) → ((i : ℕ) → i < n → p i ≡ q i) → count_below n p ≡ count_below n q
unfolding count_below
count_below-ext zero p q h = refl
count_below-ext (suc n) p q h =
    ground (arith, h n (omega arith), count_below-ext n p q (λ i lt. h i (omega arith)))

pub count_below-le : (n : ℕ) (p : ℕ → Bool) → count_below n p ≤ n
unfolding count_below
count_below-le zero p = omega arith
count_below-le (suc n) p = ground (arith, count_below-le n p)

-- All indices pass exactly when the count is the bound, and none when it is 0.
pub all-of-count_below : (n : ℕ) (p : ℕ → Bool) → count_below n p ≡ n → (i : ℕ) → i < n → p i ≡ true
unfolding count_below
all-of-count_below zero p h i lt = elim lt [ ]
all-of-count_below (suc n) p h i lt =
    ground (arith, count_below-le n p, λ (g : count_below n p ≡ n). all-of-count_below n p g i)

pub count_below-all : (n : ℕ) (p : ℕ → Bool) → ((i : ℕ) → i < n → p i ≡ true) → count_below n p ≡ n
unfolding count_below
count_below-all zero p h = refl
count_below-all (suc n) p h =
    ground (arith, h n (omega arith), count_below-all n p (λ i lt. h i (omega arith)))

pub none-of-count_below :
    (n : ℕ) (p : ℕ → Bool) → count_below n p ≡ 0 → (i : ℕ) → i < n → p i ≡ false
unfolding count_below
none-of-count_below zero p h i lt = elim lt [ ]
none-of-count_below (suc n) p h i lt =
    ground (arith, λ (g : count_below n p ≡ 0). none-of-count_below n p g i)

pub count_below-none :
    (n : ℕ) (p : ℕ → Bool) → ((i : ℕ) → i < n → p i ≡ false) → count_below n p ≡ 0
unfolding count_below
count_below-none zero p h = refl
count_below-none (suc n) p h =
    ground (arith, h n (omega arith), count_below-none n p (λ i lt. h i (omega arith)))

pub count_below-split :
    (m n : ℕ) (p : ℕ → Bool)
    → count_below (n + m) p ≡ count_below m p + count_below n (λ i. p (i + m))
unfolding count_below
count_below-split m zero p = rw (zero-add m) (omega arith)
count_below-split m (suc n) p = rw (suc-add n m) (omega (arith, count_below-split m n p))

-- A test that is turned on at one index counts one more.
pub count_below-turn_on :
    (n k : ℕ) (p q : ℕ → Bool)
    → k < n
    → p k ≡ false
    → q k ≡ true
    → ((i : ℕ) → i ≢ k → q i ≡ p i)
    → count_below n q ≡ count_below n p + 1
unfolding count_below
count_below-turn_on zero k p q h pk qk same = elim h [ ]
count_below-turn_on (suc n) k p q h pk qk same = ground (
  arith,
  same n,
  λ (g : k < n). count_below-turn_on n k p q g pk qk same,
  λ (e : n ≡ k). count_below-ext n q p (λ i lt. same i (omega arith)),
)
