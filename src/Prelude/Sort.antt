-- ===== src/Prelude/Sort.antt =====
-- A stable sort of a list by a strict order of keys, as `sort_by` and `sort_by_key` give it: the
-- result is in order and is a rearrangement of the list.
use Prim.Native.Nat.{ℕ, zero, suc}
use mathlib.Core.Path.{◌≡◌, refl, ap, ◌∙◌}
use mathlib.Core.Logic.{inl, inr}
use mathlib.Core.Bool.{Bool, true, false}
use mathlib.Core.List.{List, [], ◌∷◌, Perm}
use mathlib.Core.List.Perm
use native.Mathlib.Omega.{arith}
use rbitt.Prelude.Tests.{if◌then◌else◌, Bool-cases}
use rbitt.Prelude.Lists.{All, length, take, drop, All-take, All-drop}

module _ {ℓ} {A : Type ℓ} (lt : A → A → Bool) where
  -- `x` before the first element that it does not exceed.
  unfoldable pub place : A → List A → List A
  place x [] = x ∷ []
  place x (y ∷ ys) = let rest = place x ys in if lt y x then y ∷ rest else x ∷ y ∷ ys

  unfoldable pub sort : List A → List A
  sort [] = []
  sort (x ∷ xs) = place x (sort xs)

  -- Nothing in the list comes before `x`.
  abbrev pub AllAbove : A → List A → Type 0
  AllAbove x = All (λ y. lt y x ≡ false)

  -- No element comes before one that stands in front of it.
  abbrev pub Sorted : List A → Type 0
  Sorted [] = Unit
  Sorted (x ∷ xs) = AllAbove x xs × Sorted xs

  place-Perm : (x : A) (xs : List A) → Perm (place x xs) (x ∷ xs)
  unfolding place
  place-Perm x [] = Perm.refl (x ∷ [])
  place-Perm x (y ∷ ys) = elim (Bool-cases (lt y x)) [
    | inl e ↦ rw e (Perm.trans (Perm.cons y (place-Perm x ys)) (Perm.swap x y ys))
    | inr e ↦ rw e (Perm.refl (x ∷ y ∷ ys))
  ]

  pub sort-Perm : (xs : List A) → Perm (sort xs) xs
  unfolding sort
  sort-Perm [] = Perm.refl []
  sort-Perm (x ∷ xs) = Perm.trans (place-Perm x (sort xs)) (Perm.cons x (sort-Perm xs))

  module _ (asym : (a b : A) → lt a b ≡ true → lt b a ≡ false)
      (above : (a b c : A) → lt b a ≡ false → lt c b ≡ false → lt c a ≡ false) where
    AllAbove-trans : (a b : A) (xs : List A) → lt b a ≡ false → AllAbove b xs → AllAbove a xs
    AllAbove-trans a b [] h all = tt
    AllAbove-trans a b (x ∷ xs) h all = (above a b x h all.0, AllAbove-trans a b xs h all.1)

    AllAbove-place :
        (a x : A) (xs : List A) → lt x a ≡ false → AllAbove a xs → AllAbove a (place x xs)
    unfolding place
    AllAbove-place a x [] h all = (h, tt)
    AllAbove-place a x (y ∷ ys) h all = elim (Bool-cases (lt y x)) [
      | inl e ↦ rw e (all.0, AllAbove-place a x ys h all.1)
      | inr e ↦ rw e (h, all)
    ]

    place-Sorted : (x : A) (xs : List A) → Sorted xs → Sorted (place x xs)
    unfolding place
    place-Sorted x [] s = (tt, tt)
    place-Sorted x (y ∷ ys) s = elim (Bool-cases (lt y x)) [
      | inl e ↦ rw e (AllAbove-place y x ys (asym y x e) s.0, place-Sorted x ys s.1)
      | inr e ↦ rw e ((e, AllAbove-trans x y ys e s.0), s)
    ]

    pub sort-Sorted : (xs : List A) → Sorted (sort xs)
    unfolding sort
    sort-Sorted [] = tt
    sort-Sorted (x ∷ xs) = place-Sorted x (sort xs) (sort-Sorted xs)

  -- A sorted list cut in two: nothing in the second part comes before an element of the first.
  pub Sorted-take :
      (n : ℕ) (xs : List A)
      → Sorted xs
      → Sorted (take n xs) × All (λ x. AllAbove x (drop n xs)) (take n xs)
  Sorted-take zero xs s = (tt, tt)
  Sorted-take (suc n) [] s = (tt, tt)
  Sorted-take (suc n) (x ∷ xs) s =
      let rest = Sorted-take n xs s.1 in
      (
        (All-take (λ y. lt y x ≡ false) n xs s.0, rest.0),
        (All-drop (λ y. lt y x ≡ false) n xs s.0, rest.1),
      )

  length-place : (x : A) (xs : List A) → length (place x xs) ≡ suc (length xs)
  unfolding place
  length-place x [] = refl
  length-place x (y ∷ ys) = ground (arith, length-place x ys)

  pub length-sort : (xs : List A) → length (sort xs) ≡ length xs
  unfolding sort
  length-sort [] = refl
  length-sort (x ∷ xs) = length-place x (sort xs) ∙ ap suc (length-sort xs)

  module _ {κ} (P : A → Type κ) where
    place-All : (x : A) (xs : List A) → P x → All P xs → All P (place x xs)
    unfolding place
    place-All x [] h all = (h, tt)
    place-All x (y ∷ ys) h all = elim (Bool-cases (lt y x)) [
      | inl e ↦ rw e (all.0, place-All x ys h all.1)
      | inr e ↦ rw e (h, all)
    ]

    pub sort-All : (xs : List A) → All P xs → All P (sort xs)
    unfolding sort
    sort-All [] all = tt
    sort-All (x ∷ xs) all = place-All x (sort xs) all.0 (sort-All xs all.1)
