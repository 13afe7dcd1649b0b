-- ===== src/Prelude/Search.antt =====
-- The first element of a list that passes a test: found, taken out, or changed in its place.
use Prim.Native.Nat.{suc, ◌≤◌}
use mathlib.Core.Path.{◌≡◌, refl}
use mathlib.Core.Bool.{Bool, true, false}
use mathlib.Core.Option.{Option, none, some}
use mathlib.Core.List.{List, [], ◌∷◌}
use native.Mathlib.Omega.{arith}
use rbitt.Prelude.Tests.{if◌then◌else◌}
use rbitt.Prelude.Lists.{All, length}

module _ {ℓ} {A : Type ℓ} (p : A → Bool) where
  -- `iter().find(p)`
  unfoldable pub first : List A → Option A
  first [] = none
  first (x ∷ xs) = if p x then some x else first xs

  -- `iter().any(p)`
  unfoldable pub any : List A → Bool
  any [] = false
  any (x ∷ xs) = if p x then true else any xs

  -- The list without what `iter().position(p)` finds.
  unfoldable pub remove_first : List A → List A
  remove_first [] = []
  remove_first (x ∷ xs) = if p x then xs else x ∷ remove_first xs

  -- `retain(p)`, `iter().filter(p)`
  unfoldable pub keep : List A → List A
  keep [] = []
  keep (x ∷ xs) = let rest = keep xs in if p x then x ∷ rest else rest

  -- `if let Some(x) = iter_mut().find(p)`, and `*x = f(x)`
  unfoldable pub change_first : (A → A) → List A → List A
  change_first f [] = []
  change_first f (x ∷ xs) = if p x then f x ∷ xs else x ∷ change_first f xs

  pub length-change_first : (f : A → A) (xs : List A) → length (change_first f xs) ≡ length xs
  unfolding change_first
  length-change_first f [] = refl
  length-change_first f (x ∷ xs) = ground (arith, length-change_first f xs)

  pub length-remove_first : (xs : List A) → length (remove_first xs) ≤ length xs
  unfolding remove_first
  length-remove_first [] = omega arith
  length-remove_first (x ∷ xs) = ground (arith, length-remove_first xs)

  pub length-remove_first-some :
      (xs : List A) (a : A) → first xs ≡ some a → suc (length (remove_first xs)) ≡ length xs
  unfolding first remove_first
  length-remove_first-some [] a h = cc
  length-remove_first-some (x ∷ xs) a h = ground (arith, length-remove_first-some xs a)

  pub first-passes : (xs : List A) (a : A) → first xs ≡ some a → p a ≡ true
  unfolding first
  first-passes [] a h = cc
  first-passes (x ∷ xs) a h = ground (arith, first-passes xs a)

  module _ {κ} (P : A → Type κ) where
    pub All-first : (xs : List A) (a : A) → All P xs → first xs ≡ some a → P a
    unfolding first
    All-first [] a all h = cc
    All-first (x ∷ xs) a all h = ground (arith, All-first xs a, all)

    pub All-remove_first : (xs : List A) → All P xs → All P (remove_first xs)
    unfolding remove_first
    All-remove_first [] all = tt
    All-remove_first (x ∷ xs) all = ground (arith, All-remove_first xs all.1, all)

    pub All-keep : (xs : List A) → All P xs → All P (keep xs)
    unfolding keep
    All-keep [] all = tt
    All-keep (x ∷ xs) all = ground (arith, All-keep xs all.1, all)

    pub All-change_first :
        (f : A → A) (xs : List A) → ((a : A) → P a → P (f a)) → All P xs → All P (change_first f xs)
    unfolding change_first
    All-change_first f [] h all = tt
    All-change_first f (x ∷ xs) h all =
        ground (arith, h x all.0, All-change_first f xs h all.1, all)
