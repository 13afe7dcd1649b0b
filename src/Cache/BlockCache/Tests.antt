-- ===== src/Cache/BlockCache/Tests.antt =====
-- Runs of the block cache, and its theorem applied to blocks.
use rbitt.Prelude.{
  ℕ, ◌≡◌, refl, Bool, true, false, Option, none, some, List, [], ◌∷◌, ◌++◌, Bytes, length, arith,
}
use rbitt.Coalesce.{Region}
use rbitt.Cache.Key.{CacheKey}
use rbitt.Cache.BlockCache.{
  HashState, BlockCache, PieceBlocks, new, add_block, advance, block_at, finalize_and_verify,
  get_assembled_piece, remove_piece,
}
use rbitt.Cache.BlockCache.Advance.{Hashed, advance_enough}

abbrev some_blocks : List Region
some_blocks = (0, 1 ∷ 2 ∷ []) ∷ (2, 3 ∷ []) ∷ (9, 4 ∷ []) ∷ []

abbrev fresh : HashState
fresh = record { is_v2 = false; fed = [] }

advanced_to : advance 3 some_blocks fresh 0 ≡ some (record fresh { fed = 1 ∷ 2 ∷ 3 ∷ [] }, 3)
unfolding advance block_at
advanced_to = refl

advance_enough_example : Hashed (length some_blocks) some_blocks fresh 0
advance_enough_example =
    advance_enough some_blocks fresh 0
      ((omega arith, omega arith), ((omega arith, omega arith), ((omega arith, omega arith), tt)))

-- In the place of the hash functions.
abbrev itself : Bytes → Bytes
itself bytes = bytes

abbrev key : CacheKey
key = (7 ∷ [], 0)

-- The cache behind a call that returns.
abbrev with_block : BlockCache → CacheKey → ℕ → Bytes → ℕ → BlockCache
with_block c k offset bytes piece_length = elim (add_block c k offset bytes piece_length 1) [
  | none ↦ c
  | some added ↦ added.0
]

abbrev passed : Option (BlockCache × Bool) → Bool
passed none = false
passed (some checked) = checked.1

-- A block is replaced after it was hashed: the check passes for the first contents, and the piece
-- holds the second.
abbrev replaced : BlockCache
replaced = with_block (with_block (new 100) key 0 (1 ∷ 2 ∷ []) 2) key 0 (8 ∷ 9 ∷ []) 2

replaced_passes : passed (finalize_and_verify itself itself replaced key (1 ∷ 2 ∷ [])) ≡ true
unfolding finalize_and_verify rbitt.Cache.Key.lookup add_block rbitt.Prelude.Same.same_bytes new
    rbitt.Cache.BlockCache.put_block rbitt.Cache.BlockCache.new_piece block_at
    rbitt.Cache.BlockCache.finalize
replaced_passes = refl

replaced_contents : get_assembled_piece replaced key ≡ some (8 ∷ 9 ∷ [])
unfolding get_assembled_piece rbitt.Cache.Key.lookup add_block rbitt.Prelude.Same.same_bytes
    rbitt.Cache.BlockCache.assemble new rbitt.Cache.BlockCache.put_block
    rbitt.Cache.BlockCache.new_piece block_at
replaced_contents = refl

-- A block is replaced by a longer one: its removal takes more from the counter than was added.
wraps_around :
    (remove_piece
      (with_block (with_block (new 100) key 0 (1 ∷ []) 2) key 0 (8 ∷ 9 ∷ []) 2)
      key).0.memory_used
    ≡ 0xffffffffffffffff
unfolding remove_piece rbitt.Cache.Key.lookup add_block rbitt.Prelude.Same.same_bytes block_at new
    rbitt.Cache.BlockCache.put_block rbitt.Cache.BlockCache.new_piece
wraps_around = refl

-- At a block without bytes the call never returns.
empty_block : add_block (new 100) key 0 [] 2 1 ≡ none
unfolding add_block rbitt.Cache.Key.lookup rbitt.Prelude.Same.same_bytes new
    rbitt.Cache.BlockCache.put_block rbitt.Cache.BlockCache.new_piece block_at
empty_block = refl
