-- ===== src/Cache/Key.antt =====
-- The keys of the caches of src-tauri/crates/oxidebt-cache, and the hash maps and deques that they
-- are kept in.
use rbitt.Prelude.{
  ℕ, ◌+◌, ◌≤◌, ◌<◌, ◌≡◌, sym, ap, subst, inl, inr, Bool-cases, Bool, true, false, not, ◌&&◌, ◌||◌,
  Option, none, some, List, [], ◌∷◌, ◌++◌, Bytes, ◌==◌, if◌then◌else◌, length, arith,
}
use rbitt.Prelude.Same.{same_bytes, eq-of-same_bytes, same_bytes_refl}

-- The info hash and the piece index.
abbrev pub CacheKey : Type 0
CacheKey = Bytes × ℕ

abbrev pub same_key : CacheKey → CacheKey → Bool
same_key a b = same_bytes a.0 b.0 && a.1 == b.1

pub eq-of-same_key : (a b : CacheKey) → same_key a b ≡ true → a ≡ b
eq-of-same_key (a, i) (b, j) h = ground (arith, eq-of-same_bytes a b)

pub same_key_refl : (a : CacheKey) → same_key a a ≡ true
same_key_refl (a, i) = ground (arith, same_bytes_refl a)

pub same_key_join :
    (a b c : CacheKey) → same_key a c ≡ true → same_key b c ≡ true → same_key a b ≡ true
same_key_join a b c h k =
    let e : c ≡ b = sym (eq-of-same_key b c k) in subst (λ d. same_key a d ≡ true) e h

-- Whether the key is in a deque or a set of keys, and `retain(|k| k != key)`.
unfoldable pub holds : CacheKey → List CacheKey → Bool
holds key [] = false
holds key (k ∷ ks) = same_key k key || holds key ks

unfoldable pub without : CacheKey → List CacheKey → List CacheKey
without key [] = []
without key (k ∷ ks) = let rest = without key ks in if same_key k key then rest else k ∷ rest

pub holds-append :
    (key new : CacheKey) (ks : List CacheKey)
    → holds key (ks ++ (new ∷ [])) ≡ (same_key new key || holds key ks)
unfolding holds
holds-append key new [] = ground arith
holds-append key new (k ∷ ks) = ground (arith, holds-append key new ks)

pub holds-without :
    (key gone : CacheKey) (ks : List CacheKey)
    → holds key (without gone ks) ≡ (not (same_key gone key) && holds key ks)
unfolding holds without
holds-without key gone [] = ground arith
holds-without key gone (k ∷ ks) = elim (Bool-cases (same_key k gone)) [
  | inl e ↦
      let same = ap (λ j. same_key j key) (eq-of-same_key k gone e) in
      ground (arith, holds-without key gone ks, same)
  | inr e ↦ ground (arith, holds-without key gone ks, same_key_join k gone key)
]

module _ {A : Type 0} where
  -- `get`, `remove`, and `insert` of a map.
  unfoldable pub lookup : CacheKey → List (CacheKey × A) → Option A
  lookup key [] = none
  lookup key ((k, a) ∷ m) = if same_key k key then some a else lookup key m

  unfoldable pub delete : CacheKey → List (CacheKey × A) → List (CacheKey × A)
  delete key [] = []
  delete key ((k, a) ∷ m) =
      let rest = delete key m in if same_key k key then rest else (k, a) ∷ rest

  abbrev pub store : CacheKey → A → List (CacheKey × A) → List (CacheKey × A)
  store key a m = (key, a) ∷ delete key m

  pub length-delete : (key : CacheKey) (m : List (CacheKey × A)) → length (delete key m) ≤ length m
  unfolding delete
  length-delete key [] = omega arith
  length-delete key ((k, a) ∷ m) = ground (arith, length-delete key m)

  pub length-delete-some :
      (key : CacheKey) (a : A) (m : List (CacheKey × A))
      → lookup key m ≡ some a
      → length (delete key m) < length m
  unfolding delete lookup
  length-delete-some key a [] h = cc
  length-delete-some key a ((k, b) ∷ m) h =
      ground (arith, length-delete key m, length-delete-some key a m)

  module _ (weight : A → ℕ) where
    unfoldable pub total : List (CacheKey × A) → ℕ
    total [] = 0
    total ((k, a) ∷ m) = weight a + total m

    pub total-delete : (key : CacheKey) (m : List (CacheKey × A)) → total (delete key m) ≤ total m
    unfolding total delete
    total-delete key [] = omega arith
    total-delete key ((k, a) ∷ m) = ground (arith, total-delete key m)

    pub total-delete-some :
        (key : CacheKey) (a : A) (m : List (CacheKey × A))
        → lookup key m ≡ some a
        → weight a + total (delete key m) ≤ total m
    unfolding total delete lookup
    total-delete-some key a [] h = cc
    total-delete-some key a ((k, b) ∷ m) h =
        ground (arith, total-delete key m, total-delete-some key a m)

  -- Looking up a key after another one was deleted, and the deleted one.
  pub lookup-delete :
      (key other : CacheKey) (m : List (CacheKey × A))
      → lookup other (delete key m) ≡ (if same_key key other then none else lookup other m)
  unfolding lookup delete
  lookup-delete key other [] = ground arith
  lookup-delete key other ((k, a) ∷ m) = elim (Bool-cases (same_key k key)) [
    | inl e ↦
        let same = ap (λ j. same_key j other) (eq-of-same_key k key e) in
        ground (arith, lookup-delete key other m, same)
    | inr e ↦ ground (arith, lookup-delete key other m, same_key_join k key other)
  ]
