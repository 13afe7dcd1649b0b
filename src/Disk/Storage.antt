-- ===== src/Disk/Storage.antt =====
-- src-tauri/crates/oxidebt-disk/src/storage.rs, and `TorrentStorage` of manager.rs beside it: the
-- files of a torrent hold its bytes one after the other, and the pieces are ranges of these bytes.
-- An operation that reads or writes files takes the disk, and gives it back where it changes it.
pub mod Spans
pub mod Places
pub mod RoundTrip
pub mod VerifyAll
pub mod Safe
use rbitt.Prelude.{
  ℕ, zero, suc, ◌+◌, ◌-◌, ◌%◌, ◌^◌, min, Bool, not, ◌&&◌, Option, none, some, List, [], ◌∷◌, ◌++◌,
  Bytes, ltb, leb, ◌==◌, if◌then◌else◌, length, take, drop,
}
use rbitt.Prelude.Same.{same_bytes}
use rbitt.Disk.Error.{
  Result, ok, err, and_then, invalid_piece_index, invalid_block_offset, file_not_found, io,
}
use rbitt.Disk.Path.{FilePath, validate_file_path}
use rbitt.Disk.Files.{Disk, place, write_file, read_at, write_at, set_len, open_or_create}

pub record FileEntry : Type 0 where
  pub path : FilePath
  pub length : ℕ
  pub offset : ℕ

pub record PieceInfo : Type 0 where
  pub index : ℕ
  pub hash : Bytes
  pub offset : ℕ
  pub length : ℕ

pub record PieceFileSpan : Type 0 where
  pub file_index : ℕ
  pub file_offset : ℕ
  pub length : ℕ

pub data AllocationMode : Type 0 where
  sparse : AllocationMode
  full : AllocationMode

-- `byte_range` of a file and of a piece: the first byte and the one behind the last.
unfoldable pub byte_range : FileEntry → ℕ × ℕ
byte_range file = (file.offset, (file.offset + file.length) % 2 ^ 64)

unfoldable pub contains_offset : FileEntry → ℕ → Bool
contains_offset file offset =
    leb file.offset offset && ltb offset ((file.offset + file.length) % 2 ^ 64)

pub record TorrentStorage : Type 0 where
  pub files : List FileEntry
  pub pieces : List PieceInfo
  pub total_length : ℕ
  pub allocation_mode : AllocationMode
  pub is_v2 : Bool

unfoldable pub validate_all_file_paths : List FileEntry → Result (Unit {0})
validate_all_file_paths [] = ok tt
validate_all_file_paths (file ∷ files) =
    and_then (validate_file_path file.path) (λ u. validate_all_file_paths files)

unfoldable pub new : List FileEntry → List PieceInfo → ℕ → Bool → Result TorrentStorage
unfolding validate_all_file_paths and_then
new files pieces total_length is_v2 = and_then (validate_all_file_paths files) (λ u. ok (record {
  files = files;
  pieces = pieces;
  total_length = total_length;
  allocation_mode = sparse;
  is_v2 = is_v2;
}))

unfoldable pub with_allocation_mode : TorrentStorage → AllocationMode → TorrentStorage
with_allocation_mode s mode = record s { allocation_mode = mode }

-- `get`, and `files[index]`
unfoldable pub nth {ℓ} : {A : Type ℓ} → List A → ℕ → Option A
nth [] i = none
nth (x ∷ xs) zero = some x
nth (x ∷ xs) (suc i) = nth xs i

unfoldable pub piece_length : TorrentStorage → ℕ → ℕ
piece_length s index = elim (nth s.pieces index) [ some piece ↦ piece.length | none ↦ 0 ]

-- The loop over the files: `file_idx` is the index of the first of them.
unfoldable pub spans_from : ℕ → List FileEntry → ℕ → ℕ → List PieceFileSpan
spans_from file_idx [] remaining current_offset = []
spans_from file_idx (file ∷ files) remaining current_offset =
    let file_end = (file.offset + file.length) % 2 ^ 64 in
    let available = file_end - current_offset in
    let taken = min remaining available in
    let behind = spans_from (suc file_idx) files (remaining - taken) (current_offset + taken) in
    let passed_by = spans_from (suc file_idx) files remaining current_offset in
    if remaining == 0
    then []
    else if leb file.offset current_offset && ltb current_offset file_end
    then record {
      file_index = file_idx;
      file_offset = current_offset - file.offset;
      length = taken;
    }
      ∷ behind
    else passed_by

unfoldable pub piece_file_spans : TorrentStorage → ℕ → Result (List PieceFileSpan)
unfolding spans_from
piece_file_spans s piece_index = elim (nth s.pieces piece_index) [
  | none ↦ err (invalid_piece_index piece_index)
  | some piece ↦ ok (spans_from 0 s.files piece.length piece.offset)
]

unfoldable pub block_file_spans : TorrentStorage → ℕ → ℕ → ℕ → Result (List PieceFileSpan)
unfolding spans_from
block_file_spans s piece_index offset len = elim (nth s.pieces piece_index) [
  | none ↦ err (invalid_piece_index piece_index)
  | some piece ↦
      if ltb piece.length (offset + len)
      then err (invalid_block_offset piece_index offset)
      else ok (spans_from 0 s.files len ((piece.offset + offset) % 2 ^ 64))
]

-- `files[file_index].path`; every index that a span has is one of a file.
unfoldable pub file_path : List FileEntry → ℕ → FilePath
file_path files file_index = elim (nth files file_index) [ none ↦ [] | some file ↦ file.path ]

-- The loop that reads the spans one after the other.
unfoldable pub read_spans : List FileEntry → Disk → List PieceFileSpan → Result Bytes
unfolding file_path
read_spans files disk [] = ok []
read_spans files disk (span ∷ spans) =
    elim (disk.contents (place (file_path files span.file_index))) [
      | none ↦ err file_not_found
      | some content ↦
          and_then (read_at content span.file_offset span.length)
            (λ chunk. and_then (read_spans files disk spans) (λ rest. ok (chunk ++ rest)))
    ]

-- The loop that writes the spans, with `bytes` the data from `data_offset` on. What was written before
-- a failure stays.
unfoldable pub write_spans :
    List FileEntry → Disk → Bytes → List PieceFileSpan → Disk × Result (Unit {0})
unfolding file_path
write_spans files disk bytes [] = (disk, ok tt)
write_spans files disk bytes (span ∷ spans) =
    let at = place (file_path files span.file_index) in
    let content =
      write_at (open_or_create (disk.contents at)) span.file_offset (take span.length bytes) in
    let rest = write_spans files (write_file disk at content) (drop span.length bytes) spans in
    if disk.can_open at then rest else (disk, err io)

-- `preallocate`: both modes set the length.
unfoldable pub preallocate_all : List FileEntry → Disk → Disk × Result (Unit {0})
preallocate_all [] disk = (disk, ok tt)
preallocate_all (file ∷ files) disk =
    let at = place file.path in
    let content = set_len (open_or_create (disk.contents at)) file.length in
    let rest = preallocate_all files (write_file disk at content) in
    if disk.can_open at then rest else (disk, err io)

unfoldable pub preallocate : TorrentStorage → Disk → Disk × Result (Unit {0})
unfolding preallocate_all
preallocate s disk = preallocate_all s.files disk

-- The spans, once they are known, are written.
unfoldable pub write_found :
    TorrentStorage → Disk → Bytes → Result (List PieceFileSpan) → Disk × Result (Unit {0})
unfolding write_spans
write_found s disk bytes (err e) = (disk, err e)
write_found s disk bytes (ok spans) = write_spans s.files disk bytes spans

unfoldable pub read_piece : TorrentStorage → Disk → ℕ → Result Bytes
unfolding piece_file_spans read_spans
read_piece s disk piece_index =
    and_then (piece_file_spans s piece_index) (λ spans. read_spans s.files disk spans)

unfoldable pub read_block : TorrentStorage → Disk → ℕ → ℕ → ℕ → Result Bytes
unfolding block_file_spans read_spans
read_block s disk piece_index offset len =
    and_then (block_file_spans s piece_index offset len) (λ spans. read_spans s.files disk spans)

unfoldable pub write_piece : TorrentStorage → Disk → ℕ → Bytes → Disk × Result (Unit {0})
unfolding piece_file_spans write_found
write_piece s disk piece_index bytes = elim (nth s.pieces piece_index) [
  | none ↦ (disk, err (invalid_piece_index piece_index))
  | some piece ↦
      if not (length bytes == piece.length)
      then (disk, err (invalid_piece_index piece_index))
      else write_found s disk bytes (piece_file_spans s piece_index)
]

unfoldable pub write_block : TorrentStorage → Disk → ℕ → ℕ → Bytes → Disk × Result (Unit {0})
unfolding block_file_spans write_found
write_block s disk piece_index offset bytes =
    write_found s disk bytes (block_file_spans s piece_index offset (length bytes % 2 ^ 32))

-- The hash functions of the `sha1` and `sha2` crates.
module _ (sha1 sha256 : Bytes → Bytes) where
  unfoldable pub hash_piece : TorrentStorage → Bytes → Bytes
  hash_piece s bytes = if s.is_v2 then sha256 bytes else sha1 bytes

  unfoldable pub verify_piece : TorrentStorage → Disk → ℕ → Result Bool
  unfolding read_piece hash_piece
  verify_piece s disk piece_index = elim (nth s.pieces piece_index) [
    | none ↦ err (invalid_piece_index piece_index)
    | some piece ↦
        and_then (read_piece s disk piece_index)
          (λ bytes. ok (same_bytes (hash_piece s bytes) piece.hash))
  ]
