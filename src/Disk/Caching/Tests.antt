-- ===== src/Disk/Caching/Tests.antt =====
-- Runs of the caching manager.
use rbitt.Prelude.{
  ℕ, ◌≡◌, refl, Bool, true, false, Option, none, some, if◌then◌else◌, [], ◌∷◌, Bytes, arith,
}
use rbitt.Cache.Key.{CacheKey}
use rbitt.Cache.BlockCache
use rbitt.Cache.BlockCache.{BlockCache, add_block, get_assembled_piece}
use rbitt.Cache.PieceCache
use rbitt.Disk.Error.{Result, ok}
use rbitt.Disk.Path.{normal}
use rbitt.Disk.Storage.{FileEntry, PieceInfo, TorrentStorage, sparse}
use rbitt.Disk.Storage.RoundTrip.{IsStorage}
use rbitt.Disk.Manager
use rbitt.Disk.Manager.{get_storage}
use rbitt.Disk.Caching.Stores.{write_block-stores}
use rbitt.Disk.Files.{Disk}
use rbitt.Disk.Caching.{
  CachingDiskManager, WriteResult, buffered, piece_complete, new, write_block, read_piece,
}

abbrev itself : Bytes → Bytes
itself bytes = bytes

abbrev key : CacheKey
key = (7 ∷ [], 0)

abbrev no_files : Disk
no_files = record { contents = λ at. none; can_open = λ at. true }

abbrev second_half : Option (CachingDiskManager × Result WriteResult)
second_half =
    write_block itself itself (new 100 4 no_files) key 16384 (5 ∷ 6 ∷ []) 16386 (1 ∷ []) false

-- The manager behind a call that returns.
abbrev behind : Option (CachingDiskManager × Result WriteResult) → CachingDiskManager
behind none = new 100 4 no_files
behind (some written) = written.0

-- A piece of which only the last block has arrived is read as if that block were all of it.
half_is_buffered : second_half ≡ some (behind second_half, ok buffered)
unfolding write_block rbitt.Cache.BlockCache.add_block rbitt.Cache.BlockCache.is_complete
    rbitt.Cache.Key.lookup new rbitt.Prelude.Same.same_bytes rbitt.Cache.BlockCache.put_block
    rbitt.Cache.BlockCache.new_piece BlockCache.block_at
half_is_buffered = refl

half_is_read : (read_piece (behind second_half) key).1 ≡ ok (5 ∷ 6 ∷ [])
unfolding read_piece rbitt.Cache.PieceCache.get rbitt.Cache.Lru.get rbitt.Cache.Key.lookup
    write_block rbitt.Cache.BlockCache.add_block rbitt.Cache.BlockCache.is_complete new
    rbitt.Prelude.Same.same_bytes rbitt.Cache.BlockCache.put_block rbitt.Cache.BlockCache.new_piece
    rbitt.Cache.Lru.new rbitt.Cache.BlockCache.get_assembled_piece rbitt.Cache.BlockCache.assemble
    BlockCache.block_at
half_is_read = refl

abbrev one_file : FileEntry
one_file = record { path = normal (1 ∷ []) ∷ []; length = 2; offset = 0 }

abbrev one_piece : PieceInfo
one_piece = record { index = 0; hash = 9 ∷ 8 ∷ []; offset = 0; length = 2 }

abbrev storage : TorrentStorage
storage = record {
  files = one_file ∷ [];
  pieces = one_piece ∷ [];
  total_length = 2;
  allocation_mode = sparse;
  is_v2 = false;
}

storage-IsStorage : IsStorage storage
storage-IsStorage = record {
  contiguous = (refl, refl);
  small = omega arith;
  distinct = (tt, tt);
  inside = (omega arith, tt);
}

abbrev ready : CachingDiskManager
ready = record {
  storage = record { torrents = (7 ∷ [], storage) ∷ [] };
  block_cache = BlockCache.new 100;
  piece_cache = PieceCache.new 4;
  disk = no_files;
}

ready_storage : get_storage ready.storage key.0 ≡ ok storage
unfolding get_storage rbitt.Prelude.Same.same_bytes
ready_storage = refl

abbrev stored : Option (CachingDiskManager × Result WriteResult)
stored = write_block itself itself ready key 0 (9 ∷ 8 ∷ []) 2 (9 ∷ 8 ∷ []) false

stored_valid : stored ≡ some (behind stored, ok (piece_complete true))
unfolding write_block add_block rbitt.Cache.Key.lookup BlockCache.new rbitt.Prelude.Same.same_bytes
    BlockCache.put_block BlockCache.new_piece BlockCache.block_at BlockCache.is_complete
    BlockCache.finalize_and_verify BlockCache.finalize BlockCache.remove_piece Manager.write_piece
    rbitt.Disk.Storage.write_piece rbitt.Disk.Storage.nth
stored_valid = refl

write_block-stores_example :
    (added : BlockCache) × (content : Bytes) × (add_block ready.block_cache key 0
        (9 ∷ 8 ∷ [])
        2
        (if false then 2 else 1)
      ≡ some (added, true))
    × (get_assembled_piece added key ≡ some content)
    × (Manager.read_piece ready.storage (behind stored).disk key.0 key.1 ≡ ok content)
unfolding rbitt.Disk.Storage.nth
write_block-stores_example =
    write_block-stores itself itself ready (behind stored) key 0 (9 ∷ 8 ∷ []) 2 (9 ∷ 8 ∷ []) false
      storage one_piece storage-IsStorage ready_storage refl stored_valid
