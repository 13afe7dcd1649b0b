-- ===== src/Prelude/Lex.antt =====
-- The order of byte strings: it is strict and total.
use mathlib.Core.Path.{◌≡◌, refl}
use mathlib.Core.Bool.{Bool, true, false}
use mathlib.Core.List.{[], ◌∷◌}
use native.Mathlib.Omega.{arith}
use rbitt.Prelude.Tests.{ltb, ◌==◌, if◌then◌else◌}
use rbitt.Prelude.Lists.{Bytes}

-- The order of byte strings, which `<` on slices, arrays and keys of ordered maps uses.
unfoldable pub lex_lt : Bytes → Bytes → Bool
lex_lt [] [] = false
lex_lt [] (y ∷ ys) = true
lex_lt (x ∷ xs) [] = false
lex_lt (x ∷ xs) (y ∷ ys) = if ltb x y then true else if x == y then lex_lt xs ys else false

pub lex_lt_trans : (a b c : Bytes) → lex_lt a b ≡ true → lex_lt b c ≡ true → lex_lt a c ≡ true
unfolding lex_lt
lex_lt_trans [] [] c h k = cc
lex_lt_trans [] (y ∷ b) [] h k = cc
lex_lt_trans [] (y ∷ b) (z ∷ c) h k = refl
lex_lt_trans (x ∷ a) [] c h k = cc
lex_lt_trans (x ∷ a) (y ∷ b) [] h k = cc
lex_lt_trans (x ∷ a) (y ∷ b) (z ∷ c) h k = ground (arith, lex_lt_trans a b c)

pub lex_lt-asym : (a b : Bytes) → lex_lt a b ≡ true → lex_lt b a ≡ false
unfolding lex_lt
lex_lt-asym [] [] h = cc
lex_lt-asym [] (y ∷ b) h = refl
lex_lt-asym (x ∷ a) [] h = cc
lex_lt-asym (x ∷ a) (y ∷ b) h = ground (arith, lex_lt-asym a b)

pub lex_lt_irrefl : (a : Bytes) → lex_lt a a ≡ false
unfolding lex_lt
lex_lt_irrefl [] = refl
lex_lt_irrefl (x ∷ a) = ground (arith, lex_lt_irrefl a)

pub eq-of-not-lex_lt : (a b : Bytes) → lex_lt a b ≡ false → lex_lt b a ≡ false → a ≡ b
unfolding lex_lt
eq-of-not-lex_lt [] [] h k = refl
eq-of-not-lex_lt [] (y ∷ b) h k = cc
eq-of-not-lex_lt (x ∷ a) [] h k = cc
eq-of-not-lex_lt (x ∷ a) (y ∷ b) h k = ground (arith, eq-of-not-lex_lt a b)

pub lex_lt-above : (a b c : Bytes) → lex_lt b a ≡ false → lex_lt c b ≡ false → lex_lt c a ≡ false
unfolding lex_lt
lex_lt-above [] [] c h k = k
lex_lt-above [] (y ∷ b) [] h k = refl
lex_lt-above [] (y ∷ b) (z ∷ c) h k = refl
lex_lt-above (x ∷ a) [] c h k = cc
lex_lt-above (x ∷ a) (y ∷ b) [] h k = cc
lex_lt-above (x ∷ a) (y ∷ b) (z ∷ c) h k = ground (arith, lex_lt-above a b c)
