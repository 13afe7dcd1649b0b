-- ===== src/Cache/PieceCache/Tests.antt =====
-- Runs of the piece cache, and its theorem applied to a state of it.
use rbitt.Prelude.{ℕ, ◌≡◌, refl, true, List, [], ◌∷◌, Bytes, replicate, arith}
use rbitt.Cache.Key.{CacheKey}
use rbitt.Cache.Lru.{CachedPiece}
use rbitt.Cache.PieceCache.{PieceCache, new, insert, get, remove, clear}
use rbitt.Cache.PieceCache.Bounds.{IsSound, held_bytes}
use rbitt.Cache.PieceCache.Operations.{new-IsSound, insert-IsSound, operations-IsSound}

abbrev a_piece : CachedPiece
a_piece = record { bytes = 1 ∷ 2 ∷ 3 ∷ []; verified = true }

abbrev key_of : ℕ → CacheKey
key_of n = (7 ∷ [], n)

abbrev one_held : PieceCache
one_held = insert (new 2) (key_of 1) a_piece

one_held-IsSound : IsSound one_held
unfolding new
one_held-IsSound =
    insert-IsSound (new 2) (key_of 1) a_piece (new-IsSound 2 (omega arith)) (omega arith)

one_held_used : one_held.memory_used ≡ 3
unfolding insert new rbitt.Cache.Ghost.contains rbitt.Cache.Ghost.new rbitt.Cache.Key.holds
    rbitt.Cache.Lru.insert rbitt.Cache.Lru.entry_count rbitt.Cache.Lru.new
    rbitt.Cache.Ghost.key_count rbitt.Cache.Key.lookup
one_held_used = refl

operations-IsSound_example :
    IsSound (insert one_held (key_of 2) a_piece)
    × IsSound (get one_held (key_of 2)).0
    × IsSound (remove one_held (key_of 2)).0
    × IsSound (clear one_held)
    × IsSound (new one_held.capacity)
operations-IsSound_example =
    operations-IsSound one_held (key_of 2) a_piece one_held-IsSound (omega (arith, one_held_used))

-- A piece that is inserted again after it was read is counted twice for ever after it is read again.
abbrev read_twice : PieceCache
read_twice = (get (insert (get one_held (key_of 1)).0 (key_of 1) a_piece) (key_of 1)).0

read_twice_held : held_bytes read_twice ≡ 3
unfolding rbitt.Cache.Key.total get rbitt.Cache.Lru.get rbitt.Cache.Key.lookup insert
    rbitt.Cache.Ghost.contains rbitt.Cache.Key.holds new rbitt.Cache.Ghost.new
    rbitt.Cache.Lru.insert rbitt.Cache.Lru.entry_count rbitt.Cache.Lru.new
    rbitt.Cache.Ghost.key_count rbitt.Prelude.Same.same_bytes rbitt.Cache.Lru.remove
    rbitt.Cache.Key.delete
read_twice_held = refl

read_twice_counted : read_twice.memory_used ≡ 6
unfolding get rbitt.Cache.Lru.get rbitt.Cache.Key.lookup insert rbitt.Cache.Ghost.contains
    rbitt.Cache.Key.holds new rbitt.Cache.Ghost.new rbitt.Cache.Lru.insert
    rbitt.Cache.Lru.entry_count rbitt.Cache.Lru.new rbitt.Cache.Ghost.key_count
    rbitt.Prelude.Same.same_bytes rbitt.Cache.Lru.remove rbitt.Cache.Key.delete
read_twice_counted = refl
