-- ===== src/Disk/Error.antt =====
-- src-tauri/crates/oxidebt-disk/src/error.rs: the errors of the disk operations. Of the failures of
-- the operating system `io` is the one of a file that cannot be opened for writing.
use rbitt.Prelude.{ℕ, Bytes}

pub data DiskError : Type 0 where
  unexpected_eof : DiskError
  invalid_piece_index : (piece : ℕ) → DiskError
  invalid_block_offset : (piece offset : ℕ) → DiskError
  file_not_found : DiskError
  torrent_not_found : (info_hash : Bytes) → DiskError
  path_traversal : DiskError
  io : DiskError

pub data Result {ℓ} (A : Type ℓ) : Type ℓ where
  ok : A → Result A
  err : DiskError → Result A

-- `?`
unfoldable pub and_then {ℓ κ} : {A : Type ℓ} {B : Type κ} → Result A → (A → Result B) → Result B
and_then (ok a) f = f a
and_then (err e) f = err e
