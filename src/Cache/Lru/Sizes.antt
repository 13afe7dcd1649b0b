-- ===== src/Cache/Lru/Sizes.antt =====
-- What the operations of a list of pieces do to the number of its pieces and to their bytes. A key of
-- the map always stands in the order, so that a piece is found for eviction as long as there is one.
use rbitt.Prelude.{
  ℕ, suc, ◌+◌, ◌≤◌, ◌<◌, ◌≡◌, refl, subst, ap, inl, inr, Option-cases, Bool-cases, true, Option,
  none, some, List, [], ◌∷◌, length, arith,
}
use rbitt.Prelude.Maps.{is_some}
use rbitt.Cache.Key.{
  CacheKey, same_key, eq-of-same_key, same_key_refl, holds, without, lookup, total, length-delete,
  length-delete-some, total-delete, total-delete-some, lookup-delete, holds-append, holds-without,
}
use rbitt.Cache.Lru.{CachedPiece, size, LruList, insert, remove, pop_from, pop_front, move_to_back}

abbrev pub weight : LruList → ℕ
weight l = total size l.entries

-- Every key of the map is in the order.
abbrev pub CoveredBy : List CacheKey → List (CacheKey × CachedPiece) → Type 0
CoveredBy order entries =
    (key : CacheKey) → is_some (lookup key entries) ≡ true → holds key order ≡ true

abbrev pub Covered : LruList → Type 0
Covered l = CoveredBy l.order l.entries

pub insert-sizes :
    (l : LruList) (key : CacheKey) (piece : CachedPiece)
    → Covered l
    → (length (insert l key piece).0.entries ≤ suc (length l.entries))
      × (weight (insert l key piece).0 + (insert l key piece).2 ≤ weight l + (insert l key piece).1)
      × Covered (insert l key piece).0
unfolding insert lookup total
insert-sizes l key piece c = elim (Option-cases (lookup key l.entries)) [
  | inl e ↦
      rw (e, insert)
        (
          omega (arith, length-delete key l.entries),
          omega (arith, total-delete size key l.entries),
          λ k h. ground (arith, c k, lookup-delete key k l.entries, holds-append k key l.order),
        )
  | inr (old, e) ↦
      rw (e, insert)
        (
          omega (arith, length-delete key l.entries),
          omega (arith, total-delete-some size key old l.entries e),
          λ k h. elim (Bool-cases (same_key key k)) [
            | inl same ↦ c k (
                subst (λ j. is_some (lookup j l.entries) ≡ true) (eq-of-same_key key k same)
                  (ap is_some e))
            | inr other ↦ ground (arith, c k, lookup-delete key k l.entries, h)
          ],
        )
]

-- What is left after a piece was taken out of a list of `n` pieces and `w` bytes.
abbrev pub Taken : ℕ → ℕ → LruList → CachedPiece → Type 0
Taken n w l piece = (length l.entries < n) × (size piece + weight l ≤ w) × Covered l

pub remove-Taken :
    (l : LruList) (key : CacheKey) (piece : CachedPiece)
    → Covered l
    → lookup key l.entries ≡ some piece
    → Taken (length l.entries) (weight l) (remove l key).0 piece
unfolding remove
remove-Taken l key piece c e =
    rw (e, remove)
      (
        length-delete-some key piece l.entries e,
        total-delete-some size key piece l.entries e,
        λ k h. ground (arith, c k, lookup-delete key k l.entries, holds-without k key l.order),
      )

-- The result of `pop_front`: a piece was taken out, or there was none.
abbrev pub Popped : ℕ → ℕ → LruList → Option (CacheKey × CachedPiece) → Type 0
Popped n w l none = (n ≡ 0) × (length l.entries ≡ 0) × (weight l ≡ 0) × Covered l
Popped n w l (some evicted) = Taken n w l evicted.1

pop_from-Popped :
    (order : List CacheKey) (entries : List (CacheKey × CachedPiece))
    → CoveredBy order entries
    → Popped
        (length entries)
        (total size entries)
        (pop_from order entries).0
        (pop_from order entries).1
unfolding pop_from lookup holds total
pop_from-Popped [] [] c = (refl, refl, refl, c)
pop_from-Popped [] ((k, a) ∷ m) c = let no = c k (rw (same_key_refl k) refl) in cc
pop_from-Popped (key ∷ order) entries c = elim (Option-cases (lookup key entries)) [
  | inl e ↦
      rw (e, pop_from)
        (pop_from-Popped order entries (λ k h. elim (Bool-cases (same_key key k)) [
          | inl same ↦
              let none_there = subst (λ j. lookup j entries ≡ none) (eq-of-same_key key k same) e in
              ground (arith, none_there, h)
          | inr other ↦ ground (arith, c k h, other)
        ]))
  | inr (piece, e) ↦
      rw (e, pop_from)
        (
          length-delete-some key piece entries e,
          total-delete-some size key piece entries e,
          λ k h. ground (arith, c k, lookup-delete key k entries),
        )
]

pub pop_front-Popped :
    (l : LruList) → Covered l → Popped (length l.entries) (weight l) (pop_front l).0 (pop_front l).1
unfolding pop_front
pop_front-Popped l c = pop_from-Popped l.order l.entries c

pub move_to_back-Covered : (l : LruList) (key : CacheKey) → Covered l → Covered (move_to_back l key)
unfolding move_to_back
move_to_back-Covered l key c = elim (Bool-cases (is_some (lookup key l.entries))) [
  | inl e ↦ rw e (λ k h.
      ground (arith, c k h, holds-append k key (without key l.order), holds-without k key l.order))
  | inr e ↦ rw e c
]

pub insert-new_size :
    (l : LruList) (key : CacheKey) (piece : CachedPiece) → (insert l key piece).1 ≡ size piece
unfolding insert
insert-new_size l key piece = elim (Option-cases (lookup key l.entries)) [
  | inl e ↦ rw (e, insert) refl
  | inr (old, e) ↦ rw (e, insert) refl
]

pub move_to_back-entries : (l : LruList) (key : CacheKey) → (move_to_back l key).entries ≡ l.entries
unfolding move_to_back
move_to_back-entries l key = elim (Bool-cases (is_some (lookup key l.entries))) [
  | inl e ↦ rw e refl
  | inr e ↦ rw e refl
]
