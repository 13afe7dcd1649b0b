-- ===== src/Cache/PieceCache.antt =====
-- src-tauri/crates/oxidebt-cache/src/piece_cache.rs, `PieceCache`: an adaptive replacement cache. The
-- locks are held for single steps; here an operation runs from its beginning to its end.
pub mod Bounds
pub mod Operations
mod Tests
use rbitt.Prelude.{
  ℕ, ◌+◌, ◌-◌, ◌*◌, ◌/◌, ◌%◌, ◌^◌, min, Bool, true, false, not, ◌&&◌, ◌||◌, Option, none, some,
  List, [], ◌∷◌, Bytes, ltb, leb, ◌==◌, if◌then◌else◌, length,
}
use rbitt.Cache.Key.{CacheKey}
use rbitt.Cache.Lru
use rbitt.Cache.Lru.{LruList, CachedPiece, size}
use rbitt.Cache.Ghost
use rbitt.Cache.Ghost.{GhostList}

pub record PieceCache : Type 0 where
  pub t1 : LruList
  pub t2 : LruList
  pub b1 : GhostList
  pub b2 : GhostList
  pub p : ℕ
  pub capacity : ℕ
  pub memory_used : ℕ

unfoldable pub new : ℕ → PieceCache
new capacity = record {
  t1 = Lru.new;
  t2 = Lru.new;
  b1 = Ghost.new;
  b2 = Ghost.new;
  p = 0;
  capacity = capacity;
  memory_used = 0;
}

-- `fetch_add` and `fetch_sub` on 64 bits
abbrev pub add64 : ℕ → ℕ → ℕ
add64 a b = (a + b) % 2 ^ 64

abbrev pub sub64 : ℕ → ℕ → ℕ
sub64 a b = (a + (2 ^ 64 - b)) % 2 ^ 64

unfoldable pub promote_t1_to_t2 : PieceCache → CacheKey → PieceCache
promote_t1_to_t2 c key =
    let removed = Lru.remove c.t1 key in
    elim (removed.1) [
      | some piece ↦ record c { t1 = removed.0; t2 = (Lru.insert c.t2 key piece).0 }
      | none ↦ c
    ]

unfoldable pub get : PieceCache → CacheKey → PieceCache × Option Bytes
unfolding promote_t1_to_t2
get c key = elim (Lru.get c.t1 key) [
  | some piece ↦ (promote_t1_to_t2 c key, some piece.bytes)
  | none ↦ elim (Lru.get c.t2 key) [
    | some piece ↦ (record c { t2 = Lru.move_to_back c.t2 key }, some piece.bytes)
    | none ↦ (c, none)
  ]
]

-- `max`
abbrev pub larger : ℕ → ℕ → ℕ
larger a b = a + (b - a)

unfoldable pub compute_delta_b1 : PieceCache → ℕ
compute_delta_b1 c =
    let b1_len = Ghost.key_count c.b1 in
    let b2_len = Ghost.key_count c.b2 in if leb b2_len b1_len then 1 else b2_len / larger b1_len 1

unfoldable pub compute_delta_b2 : PieceCache → ℕ
compute_delta_b2 c =
    let b1_len = Ghost.key_count c.b1 in
    let b2_len = Ghost.key_count c.b2 in if leb b1_len b2_len then 1 else b1_len / larger b2_len 1

-- `adapt_p` of a positive and of a negative number. The capacity is below 2 ^ 63, where the casts to
-- `isize` and the doubled capacity are exact.
unfoldable pub raise_p : PieceCache → ℕ → PieceCache
raise_p c delta = record c { p = min (c.p + delta) c.capacity }

unfoldable pub lower_p : PieceCache → ℕ → PieceCache
lower_p c delta = record c { p = min (c.p - delta) c.capacity }

-- The eviction from `t1` into `b1`, and from `t2` into `b2`.
unfoldable pub evict_t1 : PieceCache → PieceCache
evict_t1 c =
    let popped = Lru.pop_front c.t1 in
    elim (popped.1) [
      | some evicted ↦ record c {
        t1 = popped.0;
        memory_used = sub64 c.memory_used (size evicted.1);
        b1 = Ghost.insert c.b1 evicted.0;
      }
      | none ↦ record c { t1 = popped.0 }
    ]

unfoldable pub evict_t2 : PieceCache → PieceCache
evict_t2 c =
    let popped = Lru.pop_front c.t2 in
    elim (popped.1) [
      | some evicted ↦ record c {
        t2 = popped.0;
        memory_used = sub64 c.memory_used (size evicted.1);
        b2 = Ghost.insert c.b2 evicted.0;
      }
      | none ↦ record c { t2 = popped.0 }
    ]

unfoldable pub replace : PieceCache → Bool → PieceCache
unfolding evict_t1 evict_t2
replace c in_b2 =
    let t1_len = Lru.entry_count c.t1 in
    let evict_from_t1 =
      ltb 0 t1_len
      && ((in_b2 && t1_len == c.p)
          || ((not in_b2 && ltb c.p t1_len) || Lru.entry_count c.t2 == 0)) in
    if evict_from_t1 then evict_t1 c else evict_t2 c

-- `memory_used` after an insertion
unfoldable pub account : ℕ → ℕ → ℕ → ℕ
account memory_used new_size old_size =
    if ltb old_size new_size
    then add64 memory_used (new_size - old_size)
    else sub64 memory_used (old_size - new_size)

unfoldable pub insert_t2 : PieceCache → CacheKey → CachedPiece → PieceCache
unfolding account
insert_t2 c key piece =
    let inserted = Lru.insert c.t2 key piece in
    record c { t2 = inserted.0; memory_used = account c.memory_used inserted.1 inserted.2 }

unfoldable pub insert_t1 : PieceCache → CacheKey → CachedPiece → PieceCache
unfolding account
insert_t1 c key piece =
    let inserted = Lru.insert c.t1 key piece in
    record c { t1 = inserted.0; memory_used = account c.memory_used inserted.1 inserted.2 }

-- The full `t1` gives up its oldest piece, which leaves no ghost.
unfoldable pub drop_t1 : PieceCache → PieceCache
drop_t1 c =
    let popped = Lru.pop_front c.t1 in
    elim (popped.1) [
      | some evicted ↦ record c {
        t1 = popped.0;
        memory_used = sub64 c.memory_used (size evicted.1);
      }
      | none ↦ record c { t1 = popped.0 }
    ]

-- The room that `insert` makes for a key that no ghost list holds.
unfoldable pub make_room : PieceCache → PieceCache
unfolding replace drop_t1
make_room c =
    let t1_len = Lru.entry_count c.t1 in
    let b1_len = Ghost.key_count c.b1 in
    let total = t1_len + b1_len + Lru.entry_count c.t2 + Ghost.key_count c.b2 in
    if leb c.capacity (t1_len + b1_len)
    then (if ltb t1_len c.capacity
        then replace (record c { b1 = (Ghost.pop_front c.b1).0 }) false
        else drop_t1 c)
    else if leb c.capacity total
    then replace
        (if leb (2 * c.capacity) total then record c { b2 = (Ghost.pop_front c.b2).0 } else c) false
    else c

unfoldable pub insert : PieceCache → CacheKey → CachedPiece → PieceCache
unfolding compute_delta_b1 compute_delta_b2 raise_p lower_p replace insert_t2 insert_t1 make_room
insert c key piece =
    let hit1 = record c { b1 = (Ghost.remove c.b1 key).0 } in
    let hit2 = record c { b2 = (Ghost.remove c.b2 key).0 } in
    if Ghost.contains c.b1 key
    then insert_t2 (replace (raise_p hit1 (compute_delta_b1 hit1)) false) key piece
    else if Ghost.contains c.b2 key
    then insert_t2 (replace (lower_p hit2 (compute_delta_b2 hit2)) true) key piece
    else insert_t1 (make_room c) key piece

unfoldable pub remove : PieceCache → CacheKey → PieceCache × Option Bytes
remove c key =
    let from_t1 = Lru.remove c.t1 key in
    let from_t2 = Lru.remove c.t2 key in
    elim (from_t1.1) [
      | some piece ↦ (
        record c { t1 = from_t1.0; memory_used = sub64 c.memory_used (size piece) },
        some piece.bytes,
      )
      | none ↦ elim (from_t2.1) [
        | some piece ↦ (
          record c { t2 = from_t2.0; memory_used = sub64 c.memory_used (size piece) },
          some piece.bytes,
        )
        | none ↦ (c, none)
      ]
    ]

unfoldable pub contains : PieceCache → CacheKey → Bool
contains c key = Lru.contains c.t1 key || Lru.contains c.t2 key

unfoldable pub len : PieceCache → ℕ
len c = Lru.entry_count c.t1 + Lru.entry_count c.t2

unfoldable pub is_empty : PieceCache → Bool
unfolding len
is_empty c = len c == 0

unfoldable pub clear : PieceCache → PieceCache
clear c = record c {
  t1 = Lru.clear c.t1;
  t2 = Lru.clear c.t2;
  b1 = Ghost.clear c.b1;
  b2 = Ghost.clear c.b2;
  p = 0;
  memory_used = 0;
}
