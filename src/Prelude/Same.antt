-- ===== src/Prelude/Same.antt =====
-- Equality of byte strings.
use mathlib.Core.Path.{◌≡◌, refl}
use mathlib.Core.Bool.{Bool, true, false, ◌&&◌}
use mathlib.Core.List.{[], ◌∷◌}
use native.Mathlib.Omega.{arith}
use rbitt.Prelude.Tests.{◌==◌}
use rbitt.Prelude.Lists.{Bytes}

unfoldable pub same_bytes : Bytes → Bytes → Bool
same_bytes [] [] = true
same_bytes [] (y ∷ ys) = false
same_bytes (x ∷ xs) [] = false
same_bytes (x ∷ xs) (y ∷ ys) = (x == y) && same_bytes xs ys

pub eq-of-same_bytes : (a b : Bytes) → same_bytes a b ≡ true → a ≡ b
unfolding same_bytes
eq-of-same_bytes [] [] h = refl
eq-of-same_bytes [] (y ∷ b) h = cc
eq-of-same_bytes (x ∷ a) [] h = cc
eq-of-same_bytes (x ∷ a) (y ∷ b) h = ground (arith, eq-of-same_bytes a b)

pub same_bytes_refl : (a : Bytes) → same_bytes a a ≡ true
unfolding same_bytes
same_bytes_refl [] = refl
same_bytes_refl (x ∷ a) = ground (arith, same_bytes_refl a)
