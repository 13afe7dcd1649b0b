-- ===== src/Disk/Caching.antt =====
-- src-tauri/crates/oxidebt-disk/src/caching_manager.rs: the caches in front of the disk manager. The
-- pool of buffers, the budget and the queues, which no operation here uses, are left out, and so are
-- the limits that `new` takes from the budget by floating point: it gets them as arguments.
pub mod Stores
mod Tests
use rbitt.Prelude.{
  ℕ, ◌+◌, ◌-◌, Bool, true, false, Option, none, some, List, [], ◌∷◌, Bytes, ltb, leb, if◌then◌else◌,
  length, take, drop,
}
use rbitt.Cache.Key.{CacheKey}
use rbitt.Cache.BlockCache
use rbitt.Cache.BlockCache.{BlockCache}
use rbitt.Cache.PieceCache
use rbitt.Cache.PieceCache.{PieceCache}
use rbitt.Disk.Error.{Result, ok, err, DiskError}
use rbitt.Disk.Files.{Disk}
use rbitt.Disk.Manager
use rbitt.Disk.Manager.{DiskManager}

pub data WriteResult : Type 0 where
  buffered : WriteResult
  piece_complete : (valid : Bool) → WriteResult

-- The manager with the disk that it works on.
pub record CachingDiskManager : Type 0 where
  pub storage : DiskManager
  pub block_cache : BlockCache
  pub piece_cache : PieceCache
  pub disk : Disk

unfoldable pub new : ℕ → ℕ → Disk → CachingDiskManager
unfolding BlockCache.new PieceCache.new Manager.new
new block_cache_limit piece_cache_capacity disk = record {
  storage = Manager.new;
  block_cache = BlockCache.new block_cache_limit;
  piece_cache = PieceCache.new piece_cache_capacity;
  disk = disk;
}

-- A valid piece goes from the block cache to the piece cache and to the disk.
unfoldable pub store_piece : CachingDiskManager → CacheKey → CachingDiskManager × Result WriteResult
store_piece m key =
    let removed = BlockCache.remove_piece m.block_cache key in
    elim (removed.1) [
      | none ↦ (record m { block_cache = removed.0 }, ok (piece_complete true))
      | some piece ↦
          let cached = record m {
            block_cache = removed.0;
            piece_cache =
                PieceCache.insert m.piece_cache key (record { bytes = piece; verified = true });
          } in
          let written = Manager.write_piece m.storage m.disk key.0 key.1 piece in
          let after = record cached { disk = written.0 } in
          elim (written.1) [ ok u ↦ (after, ok (piece_complete true)) | err e ↦ (after, err e) ]
    ]

-- A complete piece, once it was checked.
unfoldable pub finish_piece :
    CachingDiskManager → CacheKey → BlockCache × Bool → CachingDiskManager × Result WriteResult
unfolding store_piece
finish_piece m key checked =
    let removed = BlockCache.remove_piece checked.0 key in
    if checked.1
    then store_piece (record m { block_cache = checked.0 }) key
    else (record m { block_cache = removed.0 }, ok (piece_complete false))

-- `none` is a call that never returns, as the block cache has it.
module _ (sha1 sha256 : Bytes → Bytes) where
  unfoldable pub write_block :
      CachingDiskManager
      → CacheKey
      → ℕ
      → Bytes
      → ℕ
      → Bytes
      → Bool
      → Option (CachingDiskManager × Result WriteResult)
  unfolding finish_piece
  write_block m key offset bytes piece_length expected_hash is_v2 =
      let hash_version = if is_v2 then 2 else 1 in
      elim (BlockCache.add_block m.block_cache key offset bytes piece_length hash_version) [
        | none ↦ none
        | some added ↦
            let checked = BlockCache.finalize_and_verify sha1 sha256 added.0 key expected_hash in
            let finished : Option (CachingDiskManager × Result WriteResult) = elim checked [
              | none ↦ none
              | some c ↦ some (finish_piece m key c)
            ] in
            if added.1 then finished else some (record m { block_cache = added.0 }, ok buffered)
      ]

-- The range of a piece in a cache, where the piece reaches so far.
unfoldable pub slice : Option Bytes → ℕ → ℕ → Option Bytes
slice none offset len = none
slice (some piece) offset len =
    if leb (offset + len) (length piece) then some (take len (drop offset piece)) else none

unfoldable pub read_block :
    CachingDiskManager → CacheKey → ℕ → ℕ → CachingDiskManager × Result Bytes
unfolding slice
read_block m key offset len =
    let got = PieceCache.get m.piece_cache key in
    let touched = record m { piece_cache = got.0 } in
    elim (slice got.1 offset len) [
      | some bytes ↦ (touched, ok bytes)
      | none ↦ elim (slice (BlockCache.get_assembled_piece m.block_cache key) offset len) [
        | some bytes ↦ (touched, ok bytes)
        | none ↦ (touched, Manager.read_block m.storage m.disk key.0 key.1 offset len)
      ]
    ]

unfoldable pub read_piece : CachingDiskManager → CacheKey → CachingDiskManager × Result Bytes
read_piece m key =
    let got = PieceCache.get m.piece_cache key in
    let touched = record m { piece_cache = got.0 } in
    elim (got.1) [
      | some piece ↦ (touched, ok piece)
      | none ↦ elim (BlockCache.get_assembled_piece m.block_cache key) [
        | some piece ↦ (touched, ok piece)
        | none ↦ elim (Manager.read_piece m.storage m.disk key.0 key.1) [
          | ok piece ↦ (
            record touched {
              piece_cache = PieceCache.insert got.0 key (record { bytes = piece; verified = true });
            },
            ok piece,
          )
          | err e ↦ (touched, err e)
        ]
      ]
    ]

unfoldable pub clear_caches : CachingDiskManager → CachingDiskManager
clear_caches m = record m {
  block_cache = BlockCache.clear m.block_cache;
  piece_cache = PieceCache.clear m.piece_cache;
}
