-- ===== src/Cache/BlockCache.antt =====
-- src-tauri/crates/oxidebt-cache/src/block_cache.rs: the blocks of pieces that are not complete yet,
-- hashed as far as they follow each other. A map from offsets to blocks is the list of its entries
-- in the order of the offsets. The state of a hash function is the bytes that it was given; the
-- functions of the `sha1` and `sha2` crates are parameters where they are asked for the result.
pub mod Advance
pub mod Contents
mod Tests
use rbitt.Prelude.{
  ℕ, zero, suc, ◌+◌, ◌-◌, ◌/◌, ◌%◌, ◌^◌, Bool, true, false, not, Option, none, some, List, [], ◌∷◌,
  ◌++◌, Bytes, ltb, ◌==◌, if◌then◌else◌, length,
}
use rbitt.Prelude.Maps.{is_some}
use rbitt.Prelude.Same.{same_bytes}
use rbitt.Cache.Key.{CacheKey, lookup, delete, store}
use rbitt.Coalesce.{Region, regions}

abbrev pub block_size : ℕ
block_size = 16384

pub record HashState : Type 0 where
  pub is_v2 : Bool
  pub fed : Bytes

unfoldable pub update : HashState → Bytes → HashState
update state bytes = record state { fed = state.fed ++ bytes }

unfoldable pub finalize : (Bytes → Bytes) → (Bytes → Bytes) → HashState → Bytes
finalize sha1 sha256 state = if state.is_v2 then sha256 state.fed else sha1 state.fed

-- `BTreeMap::get`, and `insert` with whether the key was new.
unfoldable pub block_at : ℕ → List Region → Option Bytes
block_at offset [] = none
block_at offset ((o, block) ∷ blocks) = if o == offset then some block else block_at offset blocks

unfoldable pub put_block : ℕ → Bytes → List Region → List Region
put_block offset block [] = (offset, block) ∷ []
put_block offset block ((o, b) ∷ blocks) =
    let rest = put_block offset block blocks in
    if offset == o
    then (offset, block) ∷ blocks
    else if ltb offset o
    then (offset, block) ∷ (o, b) ∷ blocks
    else (o, b) ∷ rest

pub record PieceBlocks : Type 0 where
  pub blocks : List Region
  pub piece_length : ℕ
  pub bytes_hashed : ℕ

unfoldable pub new_piece : ℕ → PieceBlocks
new_piece piece_length = record { blocks = []; piece_length = piece_length; bytes_hashed = 0 }

unfoldable pub is_complete : PieceBlocks → Bool
is_complete p = length p.blocks % 2 ^ 32 == (p.piece_length + (block_size - 1)) / block_size

unfoldable pub sum_lengths : List Region → ℕ
sum_lengths [] = 0
sum_lengths ((o, block) ∷ blocks) = length block + sum_lengths blocks

unfoldable pub total_bytes : PieceBlocks → ℕ
unfolding sum_lengths
total_bytes p = sum_lengths p.blocks

unfoldable pub join_blocks : List Region → Bytes
join_blocks [] = []
join_blocks ((o, block) ∷ blocks) = block ++ join_blocks blocks

unfoldable pub assemble : PieceBlocks → Bytes
unfolding join_blocks
assemble p = join_blocks p.blocks

unfoldable pub coalesce : PieceBlocks → List Region
coalesce p = regions p.blocks

pub record BlockCache : Type 0 where
  pub pieces : List (CacheKey × PieceBlocks)
  pub hash_states : List (CacheKey × HashState)
  pub memory_used : ℕ
  pub memory_limit : ℕ

unfoldable pub new : ℕ → BlockCache
new memory_limit = record {
  pieces = [];
  hash_states = [];
  memory_used = 0;
  memory_limit = memory_limit;
}

-- The loop of `try_advance_hash`: the blocks from `next_offset` on, as far as they follow each other.
-- The loop of the source has no bound: `none` is a loop that goes on when the fuel is used up.
unfoldable pub advance : ℕ → List Region → HashState → ℕ → Option (HashState × ℕ)
unfolding update
advance zero blocks state next_offset = elim (block_at next_offset blocks) [
  | none ↦ some (state, next_offset)
  | some block ↦ none
]
advance (suc fuel) blocks state next_offset = elim (block_at next_offset blocks) [
  | none ↦ some (state, next_offset)
  | some block ↦
      advance fuel blocks (update state block) ((next_offset + length block % 2 ^ 32) % 2 ^ 32)
]

-- One unit of fuel for each block: a loop that goes on behind that has come back to the offset of a
-- block where it was, and goes round for ever. `none` is such a loop, here and in the operations that
-- run it.
unfoldable pub try_advance_hash :
    List (CacheKey × HashState)
    → CacheKey
    → PieceBlocks
    → Option (List (CacheKey × HashState) × PieceBlocks)
unfolding advance
try_advance_hash hash_states key piece = elim (lookup key hash_states) [
  | none ↦ some (hash_states, piece)
  | some state ↦ elim (advance (length piece.blocks) piece.blocks state piece.bytes_hashed) [
    | none ↦ none
    | some advanced ↦
        some (store key advanced.0 hash_states, record piece { bytes_hashed = advanced.1 })
  ]
]

-- `entry(key).or_insert_with(..)`
unfoldable pub open_piece :
    BlockCache → CacheKey → ℕ → ℕ → List (CacheKey × HashState) × PieceBlocks
open_piece c key piece_length hash_version = elim (lookup key c.pieces) [
  | some piece ↦ (c.hash_states, piece)
  | none ↦ (
    store key (record { is_v2 = hash_version == 2; fed = [] }) c.hash_states,
    new_piece piece_length,
  )
]

unfoldable pub add_block : BlockCache → CacheKey → ℕ → Bytes → ℕ → ℕ → Option (BlockCache × Bool)
unfolding open_piece try_advance_hash
add_block c key offset bytes piece_length hash_version =
    let opened = open_piece c key piece_length hash_version in
    let was = opened.1 in
    let memory =
      if is_some (block_at offset was.blocks)
      then c.memory_used
      else (c.memory_used + length bytes) % 2 ^ 64 in
    let put = record was { blocks = put_block offset bytes was.blocks } in
    elim (try_advance_hash opened.0 key put) [
      | none ↦ none
      | some advanced ↦ some (
        record c {
          pieces = store key advanced.1 c.pieces;
          hash_states = advanced.0;
          memory_used = memory;
        },
        is_complete advanced.1,
      )
    ]

unfoldable pub get_coalesced_regions : BlockCache → CacheKey → List Region
get_coalesced_regions c key = elim (lookup key c.pieces) [ none ↦ [] | some p ↦ coalesce p ]

unfoldable pub get_assembled_piece : BlockCache → CacheKey → Option Bytes
get_assembled_piece c key = elim (lookup key c.pieces) [ none ↦ none | some p ↦ some (assemble p) ]

unfoldable pub remove_piece : BlockCache → CacheKey → BlockCache × Option Bytes
unfolding total_bytes assemble
remove_piece c key = elim (lookup key c.pieces) [
  | none ↦ (record c { hash_states = delete key c.hash_states }, none)
  | some piece ↦ (
    record c {
      pieces = delete key c.pieces;
      hash_states = delete key c.hash_states;
      memory_used = (c.memory_used + (2 ^ 64 - total_bytes piece)) % 2 ^ 64;
    },
    some (assemble piece),
  )
]

unfoldable pub has_piece : BlockCache → CacheKey → Bool
has_piece c key = is_some (lookup key c.pieces)

unfoldable pub is_piece_complete : BlockCache → CacheKey → Bool
is_piece_complete c key = elim (lookup key c.pieces) [ none ↦ false | some p ↦ is_complete p ]

unfoldable pub pieces_count : BlockCache → ℕ
pieces_count c = length c.pieces

unfoldable pub clear : BlockCache → BlockCache
clear c = record c { pieces = []; hash_states = []; memory_used = 0 }

module _ (sha1 sha256 : Bytes → Bytes) where
  -- The hash of what was fed, once the state is taken out.
  unfoldable pub check_state : BlockCache → CacheKey → Bytes → BlockCache × Bool
  check_state c key expected = elim (lookup key c.hash_states) [
    | none ↦ (c, false)
    | some state ↦ (
      record c { hash_states = delete key c.hash_states },
      same_bytes (finalize sha1 sha256 state) expected,
    )
  ]

  unfoldable pub finalize_and_verify : BlockCache → CacheKey → Bytes → Option (BlockCache × Bool)
  unfolding try_advance_hash check_state
  finalize_and_verify c key expected = elim (lookup key c.pieces) [
    | none ↦ some (check_state c key expected)
    | some piece ↦ elim (try_advance_hash c.hash_states key piece) [
      | none ↦ none
      | some advanced ↦
          let after = record c {
            pieces = store key advanced.1 c.pieces;
            hash_states = advanced.0;
          } in
          if not (advanced.1.bytes_hashed == advanced.1.piece_length)
          then some (after, false)
          else some (check_state after key expected)
    ]
  ]
