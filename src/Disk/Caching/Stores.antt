-- ===== src/Disk/Caching/Stores.antt =====
-- A piece that is reported valid is on the disk.
use rbitt.Prelude.{
  ℕ, ◌≡◌, sym, ap, ◌∙◌, Bool, true, inl, inr, Option-cases, some, Bytes, if◌then◌else◌, length,
  arith,
}
use rbitt.Cache.Key.{CacheKey}
use rbitt.Cache.BlockCache
use rbitt.Cache.BlockCache.{BlockCache}
use rbitt.Cache.BlockCache.Contents.{
  get_assembled_piece-add_block, get_assembled_piece-finalize_and_verify,
  get_assembled_piece-remove_piece,
}
use rbitt.Disk.Error.{ok, and_then}
use rbitt.Disk.Files.{Disk}
use rbitt.Disk.Storage.{TorrentStorage, PieceInfo, nth}
use rbitt.Disk.Storage
use rbitt.Disk.Storage.RoundTrip.{IsStorage, read_piece-write_piece}
use rbitt.Disk.Manager
use rbitt.Disk.Manager.{get_storage, write_piece-known}
use rbitt.Disk.Caching.{CachingDiskManager, piece_complete, store_piece, finish_piece, write_block}

-- Only a piece of the right length is written without an error.
length-write_piece :
    (s : TorrentStorage) (disk : Disk) (index : ℕ) (piece : PieceInfo) (bytes : Bytes)
    → nth s.pieces index ≡ some piece
    → (Storage.write_piece s disk index bytes).1 ≡ ok tt
    → length bytes ≡ piece.length
unfolding Storage.write_piece
length-write_piece s disk index piece bytes found done = ground (arith, found, done)

-- A piece that is stored without an error was there, and is read from the disk.
store_piece-stores :
    (m m' : CachingDiskManager) (key : CacheKey) (s : TorrentStorage) (piece : PieceInfo)
    (content : Bytes)
    → IsStorage s
    → get_storage m.storage key.0 ≡ ok s
    → nth s.pieces key.1 ≡ some piece
    → (BlockCache.remove_piece m.block_cache key).1 ≡ some content
    → store_piece m key ≡ (m', ok (piece_complete true))
    → Manager.read_piece m.storage m'.disk key.0 key.1 ≡ ok content
unfolding store_piece Manager.read_piece and_then
store_piece-stores m m' key s piece content v registered found removed stored =
    let written = write_piece-known m.storage m.disk key.0 s key.1 content registered in
    let done : (Manager.write_piece m.storage m.disk key.0 key.1 content).1 ≡ ok tt =
      ground (arith, removed, stored) in
    let disk_eq : m'.disk ≡ (Manager.write_piece m.storage m.disk key.0 key.1 content).0 =
      ground (arith, removed, stored) in
    let done' : (Storage.write_piece s m.disk key.1 content).1 ≡ ok tt =
      sym (ap (λ w. w.1) written) ∙ done in
    let len = length-write_piece s m.disk key.1 piece content found done' in
    rw (disk_eq, written, registered)
      (read_piece-write_piece s m.disk key.1 piece content v found len done')

-- In a storage as `IsStorage` has it, a piece of a registered torrent that `write_block` reports valid
-- is on the disk: the block completed it, and reading it gives the bytes that the block cache held of
-- it with that block.
pub write_block-stores :
    (sha1 sha256 : Bytes → Bytes) (m m' : CachingDiskManager) (key : CacheKey) (offset : ℕ)
    (bytes : Bytes) (piece_length : ℕ) (expected_hash : Bytes) (is_v2 : Bool) (s : TorrentStorage)
    (piece : PieceInfo)
    → IsStorage s
    → get_storage m.storage key.0 ≡ ok s
    → nth s.pieces key.1 ≡ some piece
    → write_block sha1 sha256 m key offset bytes piece_length expected_hash is_v2
      ≡ some (m', ok (piece_complete true))
    → (added : BlockCache) × (content : Bytes) × (BlockCache.add_block m.block_cache key offset
          bytes piece_length
          (if is_v2 then 2 else 1)
        ≡ some (added, true))
      × (BlockCache.get_assembled_piece added key ≡ some content)
      × (Manager.read_piece m.storage m'.disk key.0 key.1 ≡ ok content)
unfolding write_block finish_piece
write_block-stores sha1 sha256 m m' key offset bytes piece_length expected_hash is_v2 s piece v
      registered found reported =
    let version : ℕ = if is_v2 then 2 else 1 in
    elim (Option-cases (BlockCache.add_block m.block_cache key offset bytes piece_length version)) [
      | inl stuck ↦ absurd (ground (arith, reported, stuck))
      | inr (added, runs) ↦
          elim (Option-cases
            (BlockCache.finalize_and_verify sha1 sha256 added.0 key expected_hash)) [
              | inl stuck ↦ absurd (ground (arith, reported, runs, stuck))
              | inr (checked, checks) ↦
                  let (content, there) =
                    get_assembled_piece-add_block m.block_cache key offset bytes piece_length
                      version runs in
                  let complete : added.1 ≡ true = ground (arith, reported, runs, checks) in
                  let stored : store_piece (record m { block_cache = checked.0 }) key
                      ≡ (m', ok (piece_complete true)) =
                    ground (arith, reported, runs, checks, complete) in
                  let removed : (BlockCache.remove_piece checked.0 key).1 ≡ some content =
                    get_assembled_piece-remove_piece checked.0 key
                    ∙ get_assembled_piece-finalize_and_verify sha1 sha256 added.0 key expected_hash
                        checks
                    ∙ there in
                  (
                    added.0,
                    content,
                    rw runs (ap some (ap (λ b. (added.0, b)) complete)),
                    there,
                    store_piece-stores (record m { block_cache = checked.0 }) m' key s piece content
                        v registered found removed stored,
                  )
            ]
    ]
