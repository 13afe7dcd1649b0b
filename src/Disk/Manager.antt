-- ===== src/Disk/Manager.antt =====
-- src-tauri/crates/oxidebt-disk/src/manager.rs, `DiskManager`: the storages of the torrents, by their
-- info hashes. The semaphore, which only limits how many operations run at once and is never closed,
-- is left out.
use rbitt.Prelude.{
  ℕ, ◌≡◌, refl, ap, ◌∙◌, Bool, Option, none, some, List, [], ◌∷◌, Bytes, if◌then◌else◌, length,
  arith,
}
use rbitt.Prelude.Same.{same_bytes, same_bytes_refl}
use rbitt.Disk.Error.{Result, ok, err, and_then, torrent_not_found}
use rbitt.Disk.Files.{Disk}
use rbitt.Disk.Storage
use rbitt.Disk.Storage.{TorrentStorage, PieceInfo, nth, hash_piece}
use rbitt.Disk.Storage.VerifyAll
use rbitt.Disk.Storage.RoundTrip.{
  IsStorage, read_piece-write_piece, write_piece_done, verify_piece-write_piece,
}
use rbitt.Disk.Storage.Places.{CanOpen}

abbrev pub Torrents : Type 0
Torrents = List (Bytes × TorrentStorage)

pub record DiskManager : Type 0 where
  pub torrents : Torrents

unfoldable pub find : Bytes → Torrents → Option TorrentStorage
find info_hash [] = none
find info_hash ((key, storage) ∷ rest) =
    if same_bytes key info_hash then some storage else find info_hash rest

unfoldable pub forget : Bytes → Torrents → Torrents
forget info_hash [] = []
forget info_hash ((key, storage) ∷ rest) =
    let others = forget info_hash rest in
    if same_bytes key info_hash then others else (key, storage) ∷ others

unfoldable pub new : DiskManager
new = record { torrents = [] }

unfoldable pub register : DiskManager → Bytes → TorrentStorage → DiskManager
unfolding forget
register m info_hash storage = record {
  torrents = (info_hash, storage) ∷ forget info_hash m.torrents;
}

-- The flush of the handles that follows changes no contents.
unfoldable pub unregister : DiskManager → Bytes → DiskManager
unfolding forget
unregister m info_hash = record { torrents = forget info_hash m.torrents }

unfoldable pub get_storage : DiskManager → Bytes → Result TorrentStorage
unfolding find
get_storage m info_hash = elim (find info_hash m.torrents) [
  | none ↦ err (torrent_not_found info_hash)
  | some storage ↦ ok storage
]

unfoldable pub read_piece : DiskManager → Disk → Bytes → ℕ → Result Bytes
unfolding get_storage
read_piece m disk info_hash piece_index =
    and_then (get_storage m info_hash) (λ s. Storage.read_piece s disk piece_index)

unfoldable pub read_block : DiskManager → Disk → Bytes → ℕ → ℕ → ℕ → Result Bytes
unfolding get_storage
read_block m disk info_hash piece_index offset len =
    and_then (get_storage m info_hash) (λ s. Storage.read_block s disk piece_index offset len)

unfoldable pub write_piece : DiskManager → Disk → Bytes → ℕ → Bytes → Disk × Result (Unit {0})
unfolding get_storage
write_piece m disk info_hash piece_index bytes = elim (get_storage m info_hash) [
  | err e ↦ (disk, err e)
  | ok s ↦ Storage.write_piece s disk piece_index bytes
]

unfoldable pub write_block : DiskManager → Disk → Bytes → ℕ → ℕ → Bytes → Disk × Result (Unit {0})
unfolding get_storage
write_block m disk info_hash piece_index offset bytes = elim (get_storage m info_hash) [
  | err e ↦ (disk, err e)
  | ok s ↦ Storage.write_block s disk piece_index offset bytes
]

unfoldable pub piece_count : DiskManager → Bytes → Result ℕ
unfolding get_storage
piece_count m info_hash = and_then (get_storage m info_hash) (λ s. ok (length s.pieces))

module _ (sha1 sha256 : Bytes → Bytes) where
  unfoldable pub verify_piece : DiskManager → Disk → Bytes → ℕ → Result Bool
  unfolding get_storage
  verify_piece m disk info_hash piece_index =
      and_then (get_storage m info_hash) (λ s. Storage.verify_piece sha1 sha256 s disk piece_index)

  unfoldable pub write_and_verify : DiskManager → Disk → Bytes → ℕ → Bytes → Disk × Result Bool
  unfolding write_piece verify_piece
  write_and_verify m disk info_hash piece_index bytes =
      let written = write_piece m disk info_hash piece_index bytes in
      elim (written.1) [
        | err e ↦ (written.0, err e)
        | ok u ↦ (written.0, verify_piece m written.0 info_hash piece_index)
      ]

  unfoldable pub verify_all : (ℕ → Bool) → DiskManager → Disk → Bytes → Result (List Bool)
  unfolding get_storage
  verify_all times_out m disk info_hash =
      and_then (get_storage m info_hash)
        (λ s. ok (VerifyAll.verify_all sha1 sha256 times_out s disk))

find-forget : (info_hash : Bytes) (ts : Torrents) → find info_hash (forget info_hash ts) ≡ none
unfolding find forget
find-forget info_hash [] = refl
find-forget info_hash ((key, storage) ∷ ts) = ground (arith, find-forget info_hash ts)

get_storage-register :
    (m : DiskManager) (info_hash : Bytes) (s : TorrentStorage)
    → get_storage (register m info_hash s) info_hash ≡ ok s
unfolding register get_storage find
get_storage-register m info_hash s = rw (same_bytes_refl info_hash, get_storage) refl

pub write_piece-known :
    (m : DiskManager) (disk : Disk) (info_hash : Bytes) (s : TorrentStorage) (index : ℕ)
    (bytes : Bytes)
    → get_storage m info_hash ≡ ok s
    → write_piece m disk info_hash index bytes ≡ Storage.write_piece s disk index bytes
unfolding write_piece
write_piece-known m disk info_hash s index bytes known = rw (known, write_piece) refl

write_and_verify-written :
    (sha1 sha256 : Bytes → Bytes) (m : DiskManager) (disk : Disk) (info_hash : Bytes) (index : ℕ)
    (bytes : Bytes)
    → (write_piece m disk info_hash index bytes).1 ≡ ok tt
    → write_and_verify sha1 sha256 m disk info_hash index bytes ≡ (
      (write_piece m disk info_hash index bytes).0,
      verify_piece sha1 sha256 m (write_piece m disk info_hash index bytes).0 info_hash index,
    )
unfolding write_and_verify
write_and_verify-written sha1 sha256 m disk info_hash index bytes done =
    rw (done, write_and_verify) refl

-- In a storage as `IsStorage` has it, whose files can all be opened, a piece of the right length,
-- written to the torrent that was registered with it, is found on the disk again: the answer is
-- whether it has the expected hash.
pub write_and_verify-register :
    (sha1 sha256 : Bytes → Bytes) (m : DiskManager) (disk : Disk) (info_hash : Bytes)
    (s : TorrentStorage) (index : ℕ) (piece : PieceInfo) (bytes : Bytes)
    → IsStorage s
    → CanOpen s.files disk
    → nth s.pieces index ≡ some piece
    → length bytes ≡ piece.length
    → ((write_and_verify sha1 sha256 (register m info_hash s) disk info_hash index bytes).1
        ≡ ok (same_bytes (hash_piece sha1 sha256 s bytes) piece.hash))
      × (read_piece
            (register m info_hash s)
            (write_and_verify sha1 sha256 (register m info_hash s) disk info_hash index bytes).0
            info_hash
            index
          ≡ ok bytes)
unfolding verify_piece read_piece and_then
write_and_verify-register sha1 sha256 m disk info_hash s index piece bytes v o found len =
    let r = register m info_hash s in
    let known = get_storage-register m info_hash s in
    let done = write_piece_done s disk index piece bytes v o found len in
    let written = write_piece-known r disk info_hash s index bytes known in
    let checked =
      write_and_verify-written sha1 sha256 r disk info_hash index bytes
        (ap (λ w. w.1) written ∙ done) in
    let after = ap (λ w. w.0) written in
    (
      ap (λ w. w.1) checked
          ∙ ap (λ d. verify_piece sha1 sha256 r d info_hash index) after
          ∙ rw (known, verify_piece)
              (verify_piece-write_piece sha1 sha256 s disk index piece bytes v found len done),
      ap (λ w. read_piece r w.0 info_hash index) checked
          ∙ ap (λ d. read_piece r d info_hash index) after
          ∙ rw (known, read_piece)
              (read_piece-write_piece s disk index piece bytes v found len done),
    )

-- A torrent that was removed is not found: every operation on it gives the error that names it.
pub unregister-read_piece :
    (m : DiskManager) (disk : Disk) (info_hash : Bytes) (index : ℕ)
    → read_piece (unregister m info_hash) disk info_hash index ≡ err (torrent_not_found info_hash)
unfolding read_piece unregister get_storage and_then
unregister-read_piece m disk info_hash index =
    rw (find-forget info_hash m.torrents, get_storage) refl
