-- ===== src/Prelude/Maps.antt =====
-- Maps and sets with numbers as keys: lists without an order that the program relies on.
use Prim.Native.Nat.{ℕ}
use mathlib.Core.Path.{◌≡◌, ap}
use mathlib.Core.Bool.{Bool, true, false, not, ◌&&◌, ◌||◌}
use mathlib.Core.Option.{Option, none, some}
use mathlib.Core.List.{List, [], ◌∷◌}
use native.Mathlib.Omega.{arith}
use rbitt.Prelude.Tests.{◌==◌, if◌then◌else◌}
use rbitt.Prelude.Lists.{contains}

-- `HashMap<u32, A>`: at most one entry for a key.
abbrev pub Map {ℓ} : Type ℓ → Type ℓ
Map A = List (ℕ × A)

module _ {ℓ} {A : Type ℓ} where
  -- `get`
  abbrev pub lookup : ℕ → Map A → Option A
  lookup k [] = none
  lookup k ((k', a) ∷ m) = if k' == k then some a else lookup k m

  -- `remove`
  abbrev pub delete : ℕ → Map A → Map A
  delete k [] = []
  delete k ((k', a) ∷ m) = if k' == k then delete k m else (k', a) ∷ delete k m

  -- `insert`
  abbrev pub store : ℕ → A → Map A → Map A
  store k a m = (k, a) ∷ delete k m

  abbrev pub is_some : Option A → Bool
  is_some none = false
  is_some (some a) = true

  -- `contains_key`
  abbrev pub has_key : ℕ → Map A → Bool
  has_key k m = is_some (lookup k m)

-- `HashSet<u32>`: `insert` and `remove`, whose results say whether the set changed.
abbrev pub set_insert : ℕ → List ℕ → List ℕ
set_insert k s = if contains k s then s else k ∷ s

abbrev pub set_remove : ℕ → List ℕ → List ℕ
set_remove k [] = []
set_remove k (x ∷ s) = if x == k then set_remove k s else x ∷ set_remove k s

pub contains-set_insert :
    (k j : ℕ) (s : List ℕ) → contains j (set_insert k s) ≡ (k == j || contains j s)
contains-set_insert k j s = ground (arith, λ (e : k ≡ j). ap (λ x. contains x s) e)

pub contains-set_remove :
    (k j : ℕ) (s : List ℕ) → contains j (set_remove k s) ≡ (not (k == j) && contains j s)
contains-set_remove k j [] = ground arith
contains-set_remove k j (x ∷ s) = ground (arith, contains-set_remove k j s)
