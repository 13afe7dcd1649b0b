-- ===== src/Cache/BlockCache/Contents.antt =====
-- What the block cache holds of a piece when a block is added and when the piece is checked.
use rbitt.Prelude.{
  ℕ, ◌≡◌, refl, ap, ◌∙◌, Bool, inl, inr, Option-cases, Option, none, some, List, Bytes, arith,
}
use rbitt.Cache.Key.{CacheKey, lookup, store, same_key_refl}
use rbitt.Cache.BlockCache.{
  HashState, PieceBlocks, BlockCache, assemble, join_blocks, add_block, open_piece,
  try_advance_hash, get_assembled_piece, remove_piece, finalize_and_verify, check_state, put_block,
}

-- The running hash leaves the blocks of the piece.
blocks-try_advance_hash :
    (states : List (CacheKey × HashState)) (key : CacheKey) (piece : PieceBlocks)
    {after : List (CacheKey × HashState) × PieceBlocks}
    → try_advance_hash states key piece ≡ some after
    → after.1.blocks ≡ piece.blocks
unfolding try_advance_hash
blocks-try_advance_hash states key piece {after} e = ground arith

abbrev held : List (CacheKey × PieceBlocks) → CacheKey → Option Bytes
held pieces key = elim (lookup key pieces) [ none ↦ none | some p ↦ some (assemble p) ]

assembled_stored :
    (c : BlockCache) (key : CacheKey) (p : PieceBlocks) (pieces : List (CacheKey × PieceBlocks))
    → c.pieces ≡ store key p pieces
    → get_assembled_piece c key ≡ some (assemble p)
unfolding get_assembled_piece lookup
assembled_stored c key p pieces e = rw (e, get_assembled_piece, same_key_refl key) refl

-- A piece that a block was added to is there.
pub get_assembled_piece-add_block :
    (c : BlockCache) (key : CacheKey) (offset : ℕ) (bytes : Bytes) (piece_length version : ℕ)
    {added : BlockCache} {done : Bool}
    → add_block c key offset bytes piece_length version ≡ some (added, done)
    → (content : Bytes) × (get_assembled_piece added key ≡ some content)
unfolding add_block get_assembled_piece
get_assembled_piece-add_block c key offset bytes piece_length version {added} {done} e =
    elim (Option-cases (
      try_advance_hash (open_piece c key piece_length version).0 key
        (record (open_piece c key piece_length version).1 {
          blocks = put_block offset bytes (open_piece c key piece_length version).1.blocks;
        }))) [
          | inl stuck ↦
              let impossible : none ≡ some (added, done) = rw (stuck, add_block) at e in cc
          | inr (advanced, runs) ↦
              let pieces : added.pieces ≡ store key advanced.1 c.pieces = ground (arith, e, runs) in
              (assemble advanced.1, assembled_stored added key advanced.1 c.pieces pieces)
        ]

pub get_assembled_piece-finalize_and_verify :
    (sha1 sha256 : Bytes → Bytes) (c : BlockCache) (key : CacheKey) (expected : Bytes)
    {checked : BlockCache} {valid : Bool}
    → finalize_and_verify sha1 sha256 c key expected ≡ some (checked, valid)
    → get_assembled_piece checked key ≡ get_assembled_piece c key
unfolding finalize_and_verify get_assembled_piece check_state assemble
get_assembled_piece-finalize_and_verify sha1 sha256 c key expected {checked} {valid} e =
    elim (Option-cases (lookup key c.pieces)) [
      | inl gone ↦
          let same : checked.pieces ≡ c.pieces = ground (arith, e, gone) in
          ap (λ pieces. held pieces key) same
      | inr (piece, found) ↦ elim (Option-cases (try_advance_hash c.hash_states key piece)) [
        | inl stuck ↦
            let impossible : none ≡ some (checked, valid) =
              rw (found, stuck, finalize_and_verify) at e in
            cc
        | inr (advanced, runs) ↦
            let pieces : checked.pieces ≡ store key advanced.1 c.pieces =
              ground (arith, e, found, runs) in
            assembled_stored checked key advanced.1 c.pieces pieces
            ∙ ap (λ blocks. some (join_blocks blocks))
                (blocks-try_advance_hash c.hash_states key piece runs)
            ∙ rw (found, get_assembled_piece) refl
      ]
    ]

-- Removing a piece gives what the cache held of it.
pub get_assembled_piece-remove_piece :
    (c : BlockCache) (key : CacheKey) → (remove_piece c key).1 ≡ get_assembled_piece c key
unfolding remove_piece get_assembled_piece
get_assembled_piece-remove_piece c key = ground arith
