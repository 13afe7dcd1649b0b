-- ===== src/Disk/Tests.antt =====
-- Runs of the disk manager on two small files, and its theorems applied to them.
use mathlib.Core.List.{Perm}
use rbitt.Prelude.{
  ℕ, ◌<◌, ◌≡◌, refl, Bool, true, false, Option, none, some, List, [], ◌∷◌, Bytes, All, length,
  get_or, arith,
}
use rbitt.Prelude.Same.{same_bytes}
use rbitt.Prelude.Sort.{Sorted}
use rbitt.Coalesce.{Region, all_cells, Apart}
use rbitt.Disk.Error.{Result, ok}
use rbitt.Disk.Path.{normal, cur_dir, parent_dir, validate_file_path}
use rbitt.Disk.Path.Inside.{resolve, Inside}
use rbitt.Disk.Files.{Disk, place, same_place, write_file}
use rbitt.Disk.Storage
use rbitt.Disk.Storage.{
  FileEntry, PieceInfo, TorrentStorage, sparse, nth, spans_from, read_piece, write_piece,
  read_block, write_block, verify_piece, hash_piece,
}
use rbitt.Disk.Storage.Spans.{Contiguous, Covers, Ascending, spans_from-tile}
use rbitt.Disk.Storage.RoundTrip.{IsStorage, read_block-write_block}
use rbitt.Disk.Storage.Places.{Distinct, CanOpen}
use rbitt.Disk.Manager
use rbitt.Disk.Storage.VerifyAll.{verify_all, is_valid, verify_all_complete}
use rbitt.Disk.Storage.Safe.{new-Inside}
use rbitt.Disk.Manager.{DiskManager, register, write_and_verify, write_and_verify-register}
use rbitt.Disk.Coalescer.{before, coalesce_blocks, from_write_regions, coalesce_blocks-joined}

abbrev file_a : FileEntry
file_a = record { path = normal (1 ∷ []) ∷ []; length = 5; offset = 0 }

abbrev file_b : FileEntry
file_b = record { path = normal (2 ∷ []) ∷ []; length = 4; offset = 5 }

abbrev two_files : List FileEntry
two_files = file_a ∷ file_b ∷ []

-- The second piece lies in both files.
abbrev second_piece : PieceInfo
second_piece = record { index = 1; hash = 9 ∷ []; offset = 3; length = 4 }

abbrev two_pieces : List PieceInfo
two_pieces = record { index = 0; hash = 8 ∷ []; offset = 0; length = 3 } ∷ second_piece ∷ []

abbrev storage : TorrentStorage
storage = record {
  files = two_files;
  pieces = two_pieces;
  total_length = 9;
  allocation_mode = sparse;
  is_v2 = false;
}

storage-Contiguous : Contiguous 0 two_files 9
storage-Contiguous = (refl, (refl, refl))

storage-Distinct : Distinct two_files
unfolding rbitt.Disk.Files.apart rbitt.Disk.Path.Inside.resolve same_bytes
storage-Distinct = ((refl, tt), (tt, tt))

storage-IsStorage : IsStorage storage
storage-IsStorage = record {
  contiguous = storage-Contiguous;
  small = omega arith;
  distinct = storage-Distinct;
  inside = (omega arith, (omega arith, tt));
}

abbrev empty_disk : Disk
empty_disk = record { contents = λ at. none; can_open = λ at. true }

two_files-CanOpen : CanOpen two_files empty_disk
two_files-CanOpen = (refl, (refl, tt))

-- In the place of the hash functions.
abbrev first_byte : Bytes → Bytes
first_byte bytes = get_or bytes 0 0 ∷ []

spans_from-tile_example :
    Covers two_files 3 4 (spans_from 0 two_files 4 3) × Ascending 0 (spans_from 0 two_files 4 3)
spans_from-tile_example =
    spans_from-tile two_files 9 3 4 storage-Contiguous (omega arith) (omega arith)

read_block-write_block_example :
    ((write_block storage empty_disk 1 1 (7 ∷ 8 ∷ 9 ∷ [])).1 ≡ ok tt)
    × (read_block storage (write_block storage empty_disk 1 1 (7 ∷ 8 ∷ 9 ∷ [])).0 1 1 3
        ≡ ok (7 ∷ 8 ∷ 9 ∷ []))
unfolding nth
read_block-write_block_example =
    read_block-write_block storage empty_disk 1 second_piece 1 (7 ∷ 8 ∷ 9 ∷ []) storage-IsStorage
      two_files-CanOpen refl (omega arith) (omega arith)

-- A file cannot be opened below another file, and `./a` leads where `a` does.
blocked :
    (write_file empty_disk ((1 ∷ []) ∷ []) (7 ∷ [])).can_open ((2 ∷ []) ∷ (1 ∷ []) ∷ []) ≡ false
unfolding write_file same_place same_bytes rbitt.Disk.Files.apart
blocked = refl

same_file :
    same_place (place (cur_dir ∷ normal (1 ∷ []) ∷ [])) (place (normal (1 ∷ []) ∷ [])) ≡ true
unfolding same_place resolve same_bytes
same_file = refl

abbrev manager : DiskManager
manager = record { torrents = [] }

abbrev registered : DiskManager
registered = register manager (3 ∷ []) storage

abbrev written : Disk × Result Bool
written =
    write_and_verify first_byte first_byte registered empty_disk (3 ∷ []) 1 (9 ∷ 8 ∷ 7 ∷ 6 ∷ [])

write_and_verify-register_example :
    (written.1
      ≡ ok (same_bytes (hash_piece first_byte first_byte storage (9 ∷ 8 ∷ 7 ∷ 6 ∷ [])) (9 ∷ [])))
    × (Manager.read_piece registered written.0 (3 ∷ []) 1 ≡ ok (9 ∷ 8 ∷ 7 ∷ 6 ∷ []))
unfolding nth
write_and_verify-register_example =
    write_and_verify-register first_byte first_byte manager empty_disk (3 ∷ []) storage 1
      second_piece (9 ∷ 8 ∷ 7 ∷ 6 ∷ []) storage-IsStorage two_files-CanOpen refl refl

verify_all_complete_example :
    (length (verify_all first_byte first_byte (λ i. false) storage empty_disk) ≡ length two_pieces)
    × ((i : ℕ)
        → i < length two_pieces
        → get_or (verify_all first_byte first_byte (λ i. false) storage empty_disk) i false
          ≡ is_valid (verify_piece first_byte first_byte storage empty_disk i))
verify_all_complete_example =
    verify_all_complete first_byte first_byte (λ i. false) storage empty_disk (λ i. refl)

new-Inside_example :
    (storage.files ≡ two_files)
    × All (λ f. Inside ((4 ∷ []) ∷ []) (resolve ((4 ∷ []) ∷ []) f.path)) storage.files
unfolding Storage.new validate_file_path
new-Inside_example = new-Inside ((4 ∷ []) ∷ []) two_files two_pieces 9 false storage refl

abbrev some_blocks : List Region
some_blocks = (4, 5 ∷ 6 ∷ []) ∷ (0, 1 ∷ 2 ∷ []) ∷ (2, 3 ∷ 4 ∷ []) ∷ (9, 9 ∷ []) ∷ []

two_regions :
    from_write_regions (coalesce_blocks some_blocks)
    ≡ (0, 1 ∷ 2 ∷ 3 ∷ 4 ∷ 5 ∷ 6 ∷ []) ∷ (9, 9 ∷ []) ∷ []
unfolding coalesce_blocks rbitt.Coalesce.regions rbitt.Prelude.Sort.sort rbitt.Prelude.Sort.place
two_regions = refl

coalesce_blocks-joined_example :
    (sorted : List Region) × Perm sorted some_blocks
    × Sorted before sorted
    × (all_cells (from_write_regions (coalesce_blocks some_blocks)) ≡ all_cells sorted)
    × Apart (from_write_regions (coalesce_blocks some_blocks))
coalesce_blocks-joined_example =
    coalesce_blocks-joined some_blocks
      (omega arith, (omega arith, (omega arith, (omega arith, tt))))
