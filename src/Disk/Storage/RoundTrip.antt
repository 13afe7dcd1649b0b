-- ===== src/Disk/Storage/RoundTrip.antt =====
-- What is written to a range of the torrent's bytes is read from it again.
use rbitt.Prelude.{
  ℕ, suc, ◌+◌, ◌-◌, ◌^◌, ◌≤◌, ◌<◌, ◌≡◌, refl, sym, ap, ◌∙◌, subst, Bool-cases, inl, inr, true,
  false, some, List, [], ◌∷◌, ◌++◌, Bytes, ltb, ◌%◌, leb, ◌==◌, length, length-append, length-take,
  length-drop, length-replicate, take, drop, replicate, take_prefix, drop_prefix, take-take-drop,
  take_all, All, arith,
}
use rbitt.Prelude.Same.{same_bytes}
use rbitt.Disk.Error.{ok, err, io, and_then}
use rbitt.Disk.Files.{Disk, place, write_file, read_at, write_at, open_or_create}
use rbitt.Disk.Storage.{
  FileEntry, PieceInfo, PieceFileSpan, TorrentStorage, nth, spans_from, file_path, read_spans,
  write_spans, piece_file_spans, block_file_spans, read_piece, write_piece, read_block, write_block,
  write_found, verify_piece, hash_piece,
}
use rbitt.Disk.Storage.Places.{
  Distinct, CanOpen, same_place_refl, apart-same_place, nth-All, Distinct-nth, stays_open,
  CanOpen-write_file,
}
use rbitt.Disk.Storage.Spans.{
  Contiguous, IsPart, Covers, Ascending, Ascending-mono, spans_from-tile,
}

length-write_at_front :
    (content : Bytes) (offset : ℕ)
    → length (take offset (content ++ replicate (offset - length content) 0)) ≡ offset
length-write_at_front content offset = omega (
  arith,
  length-take offset (content ++ replicate (offset - length content) 0),
  length-append content (replicate (offset - length content) 0),
  length-replicate {A = ℕ} (offset - length content) 0,
)

pub read_at-write_at :
    (content : Bytes) (offset : ℕ) (chunk : Bytes)
    → read_at (write_at content offset chunk) offset (length chunk) ≡ ok chunk
unfolding read_at write_at
read_at-write_at content offset chunk =
    let front = take offset (content ++ replicate (offset - length content) 0) in
    let back = drop (offset + length chunk) content in
    let size = length-write_at_front content offset in
    let fits : leb (offset + length chunk) (length (front ++ (chunk ++ back))) ≡ true =
      ground (arith, size, length-append front (chunk ++ back), length-append chunk back) in
    rw (fits, drop_prefix offset front (chunk ++ back) size)
      (ap ok (take_prefix (length chunk) chunk back refl))

part_path :
    (files : List FileEntry) (at : ℕ) (span : PieceFileSpan) (part : IsPart files at span)
    → file_path files span.file_index ≡ part.file.path
unfolding file_path
part_path files at span part = rw (part.found, file_path) refl

-- The disk after the first span, whose file can be opened.
abbrev write_span : List FileEntry → Disk → Bytes → PieceFileSpan → Disk
write_span files disk bytes span =
    let at = place (file_path files span.file_index) in
    write_file disk at
      (write_at (open_or_create (disk.contents at)) span.file_offset (take span.length bytes))

write_spans-opened :
    (files : List FileEntry) (disk : Disk) (bytes : Bytes) (span : PieceFileSpan)
    (spans : List PieceFileSpan)
    → disk.can_open (place (file_path files span.file_index)) ≡ true
    → write_spans files disk bytes (span ∷ spans)
      ≡ write_spans files (write_span files disk bytes span) (drop span.length bytes) spans
unfolding write_spans
write_spans-opened files disk bytes span spans e = rw e refl

write_spans-closed :
    (files : List FileEntry) (disk : Disk) (bytes : Bytes) (span : PieceFileSpan)
    (spans : List PieceFileSpan)
    → disk.can_open (place (file_path files span.file_index)) ≡ false
    → write_spans files disk bytes (span ∷ spans) ≡ (disk, err io)
unfolding write_spans
write_spans-closed files disk bytes span spans e = rw e refl

-- Where all spans are written, the first file could be opened.
opened :
    (files : List FileEntry) (disk : Disk) (bytes : Bytes) (span : PieceFileSpan)
    (spans : List PieceFileSpan)
    → (write_spans files disk bytes (span ∷ spans)).1 ≡ ok tt
    → disk.can_open (place (file_path files span.file_index)) ≡ true
opened files disk bytes span spans done =
    elim (Bool-cases (disk.can_open (place (file_path files span.file_index)))) [
      | inl e ↦ e
      | inr e ↦
          let failed : (write_spans files disk bytes (span ∷ spans)).1 ≡ err io =
            ap (λ r. r.1) (write_spans-closed files disk bytes span spans e) in
          cc
    ]

-- Spans of later files leave a file as it is.
keeps :
    (files : List FileEntry) (i : ℕ) (f : FileEntry) (disk : Disk) (bytes : Bytes) (at len : ℕ)
    (spans : List PieceFileSpan)
    → Distinct files
    → nth files i ≡ some f
    → Covers files at len spans
    → Ascending (suc i) spans
    → (write_spans files disk bytes spans).0.contents (place f.path) ≡ disk.contents (place f.path)
unfolding write_spans write_file
keeps files i f disk bytes at len [] d e c a = refl
keeps files i f disk bytes at len (span ∷ spans) d e c a =
    let part = c.0 in
    let path = part_path files (at) span part in
    let apart_from =
      apart-same_place (place part.file.path) (place f.path)
        (Distinct-nth files i span.file_index f part.file d a.0 e part.found) in
    elim (Bool-cases (disk.can_open (place (file_path files span.file_index)))) [
      | inr no_way ↦ rw (write_spans-closed files disk bytes span spans no_way) refl
      | inl way ↦ rw (write_spans-opened files disk bytes span spans way) (
          keeps files i f (write_span files disk bytes span) (drop span.length bytes)
            (at + span.length) (len - span.length) spans d e c.2
            (Ascending-mono (suc i) (suc span.file_index) spans (omega (arith, a.0)) a.1)
          ∙ rw (path, apart_from) refl)
    ]

-- One span read, and the others.
read_step :
    (files : List FileEntry) (disk : Disk) (span : PieceFileSpan) (spans : List PieceFileSpan)
    (content chunk rest : Bytes)
    → disk.contents (place (file_path files span.file_index)) ≡ some content
    → read_at content span.file_offset span.length ≡ ok chunk
    → read_spans files disk spans ≡ ok rest
    → read_spans files disk (span ∷ spans) ≡ ok (chunk ++ rest)
unfolding and_then read_spans
read_step files disk span spans content chunk rest e back others =
    rw (e, read_spans, back, others) refl

-- Spans that are all written are read as they were written.
read_spans-write_spans :
    (files : List FileEntry) (disk : Disk) (bytes : Bytes) (at len low : ℕ)
    (spans : List PieceFileSpan)
    → Distinct files
    → Covers files at len spans
    → Ascending low spans
    → len ≤ length bytes
    → (write_spans files disk bytes spans).1 ≡ ok tt
    → read_spans files (write_spans files disk bytes spans).0 spans ≡ ok (take len bytes)
unfolding read_spans write_file
read_spans-write_spans files disk bytes at len low [] d c a h done = rw c refl
read_spans-write_spans files disk bytes at len low (span ∷ spans) d c a h done =
    let part = c.0 in
    let chunk = take span.length bytes in
    let way = opened files disk bytes span spans done in
    let step = write_spans-opened files disk bytes span spans way in
    let disk' = write_span files disk bytes span in
    let after = (write_spans files disk' (drop span.length bytes) spans).0 in
    let here = place (file_path files span.file_index) in
    let content = write_at (open_or_create (disk.contents here)) span.file_offset chunk in
    let path = part_path files at span part in
    let size : length chunk ≡ span.length = omega (arith, length-take span.length bytes, c.1) in
    let written : disk'.contents here ≡ some content = rw (same_place_refl here) refl in
    let there : after.contents here ≡ some content =
      subst (λ p. after.contents p ≡ disk'.contents p) (ap place (sym path))
        (keeps files span.file_index part.file disk' (drop span.length bytes) (at + span.length)
          (len - span.length) spans d part.found c.2 a.1)
      ∙ written in
    let back : read_at content span.file_offset span.length ≡ ok chunk =
      subst (λ n. read_at content span.file_offset n ≡ ok chunk) size
        (read_at-write_at (open_or_create (disk.contents here)) span.file_offset chunk) in
    let rest =
      read_spans-write_spans files disk' (drop span.length bytes) (at + span.length)
        (len - span.length) (suc span.file_index) spans d c.2 a.1
        (omega (arith, length-drop span.length bytes, h)) (sym (ap (λ r. r.1) step) ∙ done) in
    let whole : span.length + (len - span.length) ≡ len = omega (arith, c.1) in
    rw step (
      read_step files after span spans content chunk
        (take (len - span.length) (drop span.length bytes)) there back rest
      ∙ ap ok (take-take-drop span.length (len - span.length) bytes ∙ ap (λ n. take n bytes) whole))

-- Where every file can be opened, all spans are written.
write_spans_done :
    (files : List FileEntry) (disk : Disk) (bytes : Bytes) (at len : ℕ) (spans : List PieceFileSpan)
    → Distinct files
    → CanOpen files disk
    → Covers files at len spans
    → (write_spans files disk bytes spans).1 ≡ ok tt
unfolding write_spans
write_spans_done files disk bytes at len [] d o c = refl
write_spans_done files disk bytes at len (span ∷ spans) d o c =
    let part = c.0 in
    let path = part_path files at span part in
    let way : disk.can_open (place (file_path files span.file_index)) ≡ true = rw path (
      nth-All (λ f. disk.can_open (place f.path) ≡ true) files span.file_index part.file o
        part.found) in
    let still : CanOpen files (write_span files disk bytes span) = rw path (
      CanOpen-write_file files part.file disk _
        (stays_open files span.file_index part.file d part.found) o) in
    rw (write_spans-opened files disk bytes span spans way) (
      write_spans_done files (write_span files disk bytes span) (drop span.length bytes)
        (at + span.length) (len - span.length) spans d still c.2)

-- A storage whose files stand one behind the other, at places where no file is in another's way, and
-- whose pieces lie in the files.
pub record IsStorage (s : TorrentStorage) : Type 0 where
  pub contiguous : Contiguous 0 s.files s.total_length
  pub small : s.total_length < 2 ^ 64
  pub distinct : Distinct s.files
  pub inside : All (λ p. p.offset + p.length ≤ s.total_length) s.pieces

-- Any range that the files hold is read as it was written, once all of it is written.
written_range :
    (s : TorrentStorage) (disk : Disk) (offset : ℕ) (bytes : Bytes)
    → IsStorage s
    → offset + length bytes ≤ s.total_length
    → (let spans = spans_from 0 s.files (length bytes) offset in
        (write_spans s.files disk bytes spans).1 ≡ ok tt
        → read_spans s.files (write_spans s.files disk bytes spans).0 spans ≡ ok bytes)
written_range s disk offset bytes v h done =
    let tile =
      spans_from-tile s.files s.total_length offset (length bytes) v.contiguous v.small h in
    read_spans-write_spans s.files disk bytes offset (length bytes) 0 _ v.distinct tile.0 tile.1
      (omega arith) done
    ∙ ap ok (take_all (length bytes) bytes (omega arith))

range_done :
    (s : TorrentStorage) (disk : Disk) (offset : ℕ) (bytes : Bytes)
    → IsStorage s
    → CanOpen s.files disk
    → offset + length bytes ≤ s.total_length
    → (write_spans s.files disk bytes (spans_from 0 s.files (length bytes) offset)).1 ≡ ok tt
range_done s disk offset bytes v o h =
    write_spans_done s.files disk bytes offset (length bytes) _ v.distinct o
      (spans_from-tile s.files s.total_length offset (length bytes) v.contiguous v.small h).0

piece_file_spans-some :
    (s : TorrentStorage) (index : ℕ) (piece : PieceInfo)
    → nth s.pieces index ≡ some piece
    → piece_file_spans s index ≡ ok (spans_from 0 s.files piece.length piece.offset)
unfolding piece_file_spans spans_from
piece_file_spans-some s index piece found = rw (found, piece_file_spans) refl

piece_fits :
    (s : TorrentStorage) (index : ℕ) (piece : PieceInfo)
    → IsStorage s
    → nth s.pieces index ≡ some piece
    → piece.offset + piece.length ≤ s.total_length
piece_fits s index piece v found =
    nth-All (λ p. p.offset + p.length ≤ s.total_length) s.pieces index piece v.inside found

write_piece-known :
    (s : TorrentStorage) (disk : Disk) (index : ℕ) (piece : PieceInfo) (bytes : Bytes)
    → nth s.pieces index ≡ some piece
    → length bytes ≡ piece.length
    → write_piece s disk index bytes
      ≡ write_spans s.files disk bytes (spans_from 0 s.files (length bytes) piece.offset)
unfolding write_piece write_found
write_piece-known s disk index piece bytes found len =
    let same : (length bytes == piece.length) ≡ true = ground (arith, len) in
    rw (found, write_piece, same, piece_file_spans-some s index piece found, len) refl

-- A piece that was written without an error is read as it was written.
pub read_piece-write_piece :
    (s : TorrentStorage) (disk : Disk) (index : ℕ) (piece : PieceInfo) (bytes : Bytes)
    → IsStorage s
    → nth s.pieces index ≡ some piece
    → length bytes ≡ piece.length
    → (write_piece s disk index bytes).1 ≡ ok tt
    → read_piece s (write_piece s disk index bytes).0 index ≡ ok bytes
unfolding read_piece and_then
read_piece-write_piece s disk index piece bytes v found len done =
    let fits : piece.offset + length bytes ≤ s.total_length =
      omega (arith, len, piece_fits s index piece v found) in
    let known = write_piece-known s disk index piece bytes found len in
    rw (known, piece_file_spans-some s index piece found, read_piece, sym len)
      (written_range s disk piece.offset bytes v fits (sym (ap (λ r. r.1) known) ∙ done))

-- Where every file can be opened, a piece of the right length is written without an error.
pub write_piece_done :
    (s : TorrentStorage) (disk : Disk) (index : ℕ) (piece : PieceInfo) (bytes : Bytes)
    → IsStorage s
    → CanOpen s.files disk
    → nth s.pieces index ≡ some piece
    → length bytes ≡ piece.length
    → (write_piece s disk index bytes).1 ≡ ok tt
write_piece_done s disk index piece bytes v o found len =
    let fits : piece.offset + length bytes ≤ s.total_length =
      omega (arith, len, piece_fits s index piece v found) in
    rw (write_piece-known s disk index piece bytes found len)
      (range_done s disk piece.offset bytes v o fits)

block_file_spans-some :
    (s : TorrentStorage) (index : ℕ) (piece : PieceInfo) (offset len : ℕ)
    → nth s.pieces index ≡ some piece
    → offset + len ≤ piece.length
    → piece.offset + offset < 2 ^ 64
    → block_file_spans s index offset len ≡ ok (spans_from 0 s.files len (piece.offset + offset))
unfolding block_file_spans spans_from
block_file_spans-some s index piece offset len found fits small =
    let inside : ltb piece.length (offset + len) ≡ false = ground arith in
    let start : (piece.offset + offset) % 2 ^ 64 ≡ piece.offset + offset = omega arith in
    rw (found, block_file_spans, inside, start) refl

-- In a storage as `IsStorage` has it, whose files can all be opened, writing a block that lies in its
-- piece succeeds, and reading it gives what was written.
pub read_block-write_block :
    (s : TorrentStorage) (disk : Disk) (index : ℕ) (piece : PieceInfo) (offset : ℕ) (bytes : Bytes)
    → IsStorage s
    → CanOpen s.files disk
    → nth s.pieces index ≡ some piece
    → length bytes < 2 ^ 32
    → offset + length bytes ≤ piece.length
    → ((write_block s disk index offset bytes).1 ≡ ok tt)
      × (read_block s (write_block s disk index offset bytes).0 index offset (length bytes)
          ≡ ok bytes)
unfolding write_block read_block and_then write_found
read_block-write_block s disk index piece offset bytes v o found u32 fits =
    let inside = piece_fits s index piece v found in
    let size : length bytes % 2 ^ 32 ≡ length bytes = omega arith in
    let some_spans =
      block_file_spans-some s index piece offset (length bytes) found fits
        (omega (arith, inside, v.small, fits)) in
    let room : piece.offset + offset + length bytes ≤ s.total_length =
      omega (arith, inside, fits) in
    let done = range_done s disk (piece.offset + offset) bytes v o room in
    rw (size, some_spans) (done, written_range s disk (piece.offset + offset) bytes v room done)

-- A piece that was written passes the check exactly where its hash is the expected one.
pub verify_piece-write_piece :
    (sha1 sha256 : Bytes → Bytes) (s : TorrentStorage) (disk : Disk) (index : ℕ) (piece : PieceInfo)
    (bytes : Bytes)
    → IsStorage s
    → nth s.pieces index ≡ some piece
    → length bytes ≡ piece.length
    → (write_piece s disk index bytes).1 ≡ ok tt
    → verify_piece sha1 sha256 s (write_piece s disk index bytes).0 index
      ≡ ok (same_bytes (hash_piece sha1 sha256 s bytes) piece.hash)
unfolding verify_piece and_then
verify_piece-write_piece sha1 sha256 s disk index piece bytes v found len done =
    rw (found, verify_piece, read_piece-write_piece s disk index piece bytes v found len done) refl
