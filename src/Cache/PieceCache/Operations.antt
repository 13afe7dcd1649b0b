-- ===== src/Cache/PieceCache/Operations.antt =====
-- Every operation of the piece cache keeps its bounds.
use rbitt.Prelude.{
  ℕ, ◌+◌, ◌-◌, ◌*◌, ◌^◌, ◌≤◌, ◌<◌, ◌≡◌, refl, ap, min, inl, inr, Option-cases, Bool-cases, true,
  false, none, some, ltb, leb, length, arith,
}
use rbitt.Cache.Key.{CacheKey, lookup, total}
use rbitt.Cache.Lru
use rbitt.Cache.Lru.{LruList, CachedPiece, size}
use rbitt.Cache.Lru.Sizes.{
  weight, insert-sizes, insert-new_size, remove-Taken, move_to_back-Covered, move_to_back-entries,
}
use rbitt.Cache.Ghost
use rbitt.Cache.PieceCache.{
  PieceCache, new, promote_t1_to_t2, get, raise_p, lower_p, account, insert_t1, insert_t2,
  make_room, insert, remove, clear, compute_delta_b1, compute_delta_b2,
}
use rbitt.Cache.PieceCache.Bounds.{
  IsSound, HasRoom, sub64-eq, shrunk1, shrunk2, drop_t1-HasRoom, replace-HasRoom,
}

pub new-IsSound : (capacity : ℕ) → 0 < capacity → IsSound (new capacity)
unfolding new Lru.new total lookup
new-IsSound capacity h = record {
  positive = h;
  few = omega arith;
  counted = omega arith;
  counter = omega arith;
  target = omega arith;
  covered1 = λ key e. cc;
  covered2 = λ key e. cc;
}

-- The counter after an insertion that replaced `old` bytes by `new` ones.
account-bounds :
    (m before after new old : ℕ)
    → before ≤ m
    → after + old ≤ before + new
    → m + new < 2 ^ 64
    → (after + (m - before) ≤ account m new old) × (account m new old < 2 ^ 64)
unfolding account
account-bounds m before after new old h e small = elim (Bool-cases (ltb old new)) [
  | inl more ↦ rw more (ground arith, ground arith)
  | inr less ↦
      let s = sub64-eq m (old - new) (omega arith) (omega arith) in
      rw (less, s) (ground arith, ground arith)
]

insert_t1-IsSound :
    (m : ℕ) (c : PieceCache) (key : CacheKey) (piece : CachedPiece)
    → HasRoom m c
    → m + size piece < 2 ^ 64
    → IsSound (insert_t1 c key piece)
unfolding insert_t1
insert_t1-IsSound m c key piece r small =
    let s = r.sound in
    let sizes = insert-sizes c.t1 key piece s.covered1 in
    let new_size : (Lru.insert c.t1 key piece).1 ≡ size piece = insert-new_size c.t1 key piece in
    let counts =
      account-bounds c.memory_used (weight c.t1) (weight (Lru.insert c.t1 key piece).0)
        (Lru.insert c.t1 key piece).1 (Lru.insert c.t1 key piece).2 (omega (arith, s.counted))
        sizes.1 (omega (arith, r.used, new_size, small)) in
    record {
      positive = s.positive;
      few = omega (arith, sizes.0, r.room);
      counted = omega (arith, counts.0, s.counted);
      counter = counts.1;
      target = s.target;
      covered1 = sizes.2;
      covered2 = s.covered2;
    }

insert_t2-IsSound :
    (m : ℕ) (c : PieceCache) (key : CacheKey) (piece : CachedPiece)
    → HasRoom m c
    → m + size piece < 2 ^ 64
    → IsSound (insert_t2 c key piece)
unfolding insert_t2
insert_t2-IsSound m c key piece r small =
    let s = r.sound in
    let sizes = insert-sizes c.t2 key piece s.covered2 in
    let new_size : (Lru.insert c.t2 key piece).1 ≡ size piece = insert-new_size c.t2 key piece in
    let counts =
      account-bounds c.memory_used (weight c.t2) (weight (Lru.insert c.t2 key piece).0)
        (Lru.insert c.t2 key piece).1 (Lru.insert c.t2 key piece).2 (omega (arith, s.counted))
        sizes.1 (omega (arith, r.used, new_size, small)) in
    record {
      positive = s.positive;
      few = omega (arith, sizes.0, r.room);
      counted = omega (arith, counts.0, s.counted);
      counter = counts.1;
      target = s.target;
      covered1 = s.covered1;
      covered2 = sizes.2;
    }

-- The ghost lists have no part in the bounds, and the target is kept below the capacity.
ghosts-IsSound :
    (c : PieceCache) (b1 b2 : Ghost.GhostList) → IsSound c → IsSound (record c { b1 = b1; b2 = b2 })
ghosts-IsSound c b1 b2 s = record {
  positive = s.positive;
  few = s.few;
  counted = s.counted;
  counter = s.counter;
  target = s.target;
  covered1 = s.covered1;
  covered2 = s.covered2;
}

target-IsSound : (c : PieceCache) (x : ℕ) → IsSound c → IsSound (record c { p = min x c.capacity })
target-IsSound c x s = record {
  positive = s.positive;
  few = s.few;
  counted = s.counted;
  counter = s.counter;
  target = omega arith;
  covered1 = s.covered1;
  covered2 = s.covered2;
}

make_room-HasRoom : (c : PieceCache) → IsSound c → HasRoom c.memory_used (make_room c)
unfolding make_room Lru.entry_count Ghost.key_count
make_room-HasRoom c s =
    let t1_len = length c.t1.entries in
    let total = t1_len + Ghost.key_count c.b1 + length c.t2.entries + Ghost.key_count c.b2 in
    elim (Bool-cases (leb c.capacity (t1_len + Ghost.key_count c.b1))) [
      | inl full1 ↦ elim (Bool-cases (ltb t1_len c.capacity)) [
        | inl e ↦
            rw (full1, e)
              (replace-HasRoom (record c { b1 = (Ghost.pop_front c.b1).0 }) false
                (ghosts-IsSound c (Ghost.pop_front c.b1).0 c.b2 s))
        | inr e ↦ rw (full1, e) (drop_t1-HasRoom c s (ground (arith, s.positive)))
      ]
      | inr e ↦ elim (Bool-cases (leb c.capacity total)) [
        | inl full ↦ elim (Bool-cases (leb (2 * c.capacity) total)) [
          | inl over ↦
              rw (e, full, over)
                (replace-HasRoom (record c { b2 = (Ghost.pop_front c.b2).0 }) false
                  (ghosts-IsSound c c.b1 (Ghost.pop_front c.b2).0 s))
          | inr under ↦ rw (e, full, under) (replace-HasRoom c false s)
        ]
        | inr free ↦ rw (e, free) (record { sound = s; room = ground arith; used = omega arith })
      ]
    ]

-- `insert` keeps the bounds, as long as the 64 bits of the counter hold the new size.
pub insert-IsSound :
    (c : PieceCache) (key : CacheKey) (piece : CachedPiece)
    → IsSound c
    → c.memory_used + size piece < 2 ^ 64
    → IsSound (insert c key piece)
unfolding insert raise_p lower_p
insert-IsSound c key piece s small =
    let hit1 = record c { b1 = (Ghost.remove c.b1 key).0 } in
    let hit2 = record c { b2 = (Ghost.remove c.b2 key).0 } in
    let s1 = ghosts-IsSound c (Ghost.remove c.b1 key).0 c.b2 s in
    let s2 = ghosts-IsSound c c.b1 (Ghost.remove c.b2 key).0 s in
    elim (Bool-cases (Ghost.contains c.b1 key)) [
      | inl e ↦ rw e (
          insert_t2-IsSound c.memory_used _ key piece
            (replace-HasRoom (raise_p hit1 (compute_delta_b1 hit1)) false
              (target-IsSound hit1 (c.p + compute_delta_b1 hit1) s1))
            small)
      | inr e ↦ elim (Bool-cases (Ghost.contains c.b2 key)) [
        | inl f ↦
            rw (e, f)
              (insert_t2-IsSound c.memory_used _ key piece
                (replace-HasRoom (lower_p hit2 (compute_delta_b2 hit2)) true
                  (target-IsSound hit2 (c.p - compute_delta_b2 hit2) s2))
                small)
        | inr f ↦
            rw (e, f)
              (insert_t1-IsSound c.memory_used (make_room c) key piece (make_room-HasRoom c s)
                small)
      ]
    ]

-- A piece that is taken out of the first list and put into the second.
promote-IsSound :
    (c : PieceCache) (key : CacheKey) (piece : CachedPiece)
    → IsSound c
    → lookup key c.t1.entries ≡ some piece
    → IsSound (promote_t1_to_t2 c key)
unfolding promote_t1_to_t2 Lru.remove
promote-IsSound c key piece s e =
    let taken = remove-Taken c.t1 key piece s.covered1 e in
    let sizes = insert-sizes c.t2 key piece s.covered2 in
    let found : (Lru.remove c.t1 key).1 ≡ some piece = rw (e, Lru.remove) refl in
    rw (found, promote_t1_to_t2)
      (record {
        positive = s.positive;
        few = omega (arith, taken.0, sizes.0, s.few);
        counted = omega (arith, taken.1, sizes.1, insert-new_size c.t2 key piece, s.counted);
        counter = s.counter;
        target = s.target;
        covered1 = taken.2;
        covered2 = sizes.2;
      })

moved-IsSound :
    (c : PieceCache) (key : CacheKey)
    → IsSound c
    → IsSound (record c { t2 = Lru.move_to_back c.t2 key })
moved-IsSound c key s =
    let same = move_to_back-entries c.t2 key in
    record {
      positive = s.positive;
      few = omega (arith, ap length same, s.few);
      counted = omega (arith, ap (total size) same, s.counted);
      counter = s.counter;
      target = s.target;
      covered1 = s.covered1;
      covered2 = move_to_back-Covered c.t2 key s.covered2;
    }

get-IsSound : (c : PieceCache) (key : CacheKey) → IsSound c → IsSound (get c key).0
unfolding get Lru.get
get-IsSound c key s = elim (Option-cases (lookup key c.t1.entries)) [
  | inr (piece, e) ↦ rw (e, get) (promote-IsSound c key piece s e)
  | inl e ↦ elim (Option-cases (lookup key c.t2.entries)) [
    | inl f ↦ rw (e, get, f) s
    | inr (piece, f) ↦ rw (e, get, f) (moved-IsSound c key s)
  ]
]

remove-IsSound : (c : PieceCache) (key : CacheKey) → IsSound c → IsSound (remove c key).0
unfolding remove Lru.remove
remove-IsSound c key s = elim (Option-cases (lookup key c.t1.entries)) [
  | inr (piece, e) ↦
      let found : (Lru.remove c.t1 key).1 ≡ some piece = rw (e, Lru.remove) refl in
      rw (found, remove)
        (shrunk1 c (Lru.remove c.t1 key).0 c.b1 piece s
          (remove-Taken c.t1 key piece s.covered1 e)).sound
  | inl e ↦
      let missing : (Lru.remove c.t1 key).1 ≡ none = rw (e, Lru.remove) refl in
      elim (Option-cases (lookup key c.t2.entries)) [
        | inl f ↦
            let missing2 : (Lru.remove c.t2 key).1 ≡ none = rw (f, Lru.remove) refl in
            rw (missing, remove, missing2) s
        | inr (piece, f) ↦
            let found : (Lru.remove c.t2 key).1 ≡ some piece = rw (f, Lru.remove) refl in
            rw (missing, remove, found)
              (shrunk2 c (Lru.remove c.t2 key).0 c.b2 piece s
                (remove-Taken c.t2 key piece s.covered2 f)).sound
      ]
]

clear-IsSound : (c : PieceCache) → IsSound c → IsSound (clear c)
unfolding clear Lru.clear total lookup
clear-IsSound c s = record {
  positive = s.positive;
  few = omega arith;
  counted = omega arith;
  counter = omega arith;
  target = omega arith;
  covered1 = λ key e. cc;
  covered2 = λ key e. cc;
}

-- A cache with a capacity above 0 holds at most that many pieces, and its memory counter is never
-- below the bytes that it holds and never wraps around, whatever operation follows on whatever else,
-- as long as a piece that is inserted can be added to the counter.
pub operations-IsSound :
    (c : PieceCache) (key : CacheKey) (piece : CachedPiece)
    → IsSound c
    → c.memory_used + size piece < 2 ^ 64
    → IsSound (insert c key piece)
      × IsSound (get c key).0
      × IsSound (remove c key).0
      × IsSound (clear c)
      × IsSound (new c.capacity)
operations-IsSound c key piece s small = (
  insert-IsSound c key piece s small,
  get-IsSound c key s,
  remove-IsSound c key s,
  clear-IsSound c s,
  new-IsSound c.capacity s.positive,
)
