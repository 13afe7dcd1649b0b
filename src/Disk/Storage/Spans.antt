-- ===== src/Disk/Storage/Spans.antt =====
-- The spans of a range of bytes are parts of files that cover the range exactly, in its order.
use rbitt.Prelude.{
  ℕ, suc, ◌+◌, ◌-◌, ◌%◌, ◌^◌, ◌≤◌, ◌<◌, ◌≡◌, ap, ◌∙◌, subst, min, inl, inr, ◌&&◌, Bool-cases, some,
  List, [], ◌∷◌, ltb, leb, ◌==◌, arith,
}
use rbitt.Disk.Storage.{FileEntry, PieceFileSpan, nth, spans_from}

-- The files stand one behind the other from `start` to `end`.
abbrev pub Contiguous : ℕ → List FileEntry → ℕ → Type 0
Contiguous start [] end = start ≡ end
Contiguous start (file ∷ files) end =
    (file.offset ≡ start) × Contiguous (start + file.length) files end

-- A part of one file that begins with the byte `at` of the torrent.
pub record IsPart (files : List FileEntry) (at : ℕ) (span : PieceFileSpan) : Type 0 where
  pub file : FileEntry
  pub found : nth files span.file_index ≡ some file
  pub place : file.offset + span.file_offset ≡ at
  pub within : span.file_offset + span.length ≤ file.length
  pub nonempty : 0 < span.length

-- The spans are parts of files that follow each other, `len` bytes from the byte `at` on.
abbrev pub Covers : List FileEntry → ℕ → ℕ → List PieceFileSpan → Type 0
Covers files at len [] = len ≡ 0
Covers files at len (span ∷ spans) =
    IsPart files at span
    × (span.length ≤ len)
    × Covers files (at + span.length) (len - span.length) spans

-- The file indices ascend from `low` on.
abbrev pub Ascending : ℕ → List PieceFileSpan → Type 0
Ascending low [] = Unit
Ascending low (span ∷ spans) = (low ≤ span.file_index) × Ascending (suc span.file_index) spans

Contiguous-le :
    (start : ℕ) (files : List FileEntry) (end : ℕ) → Contiguous start files end → start ≤ end
Contiguous-le start [] end c = omega (arith, c)
Contiguous-le start (file ∷ files) end c =
    omega (arith, Contiguous-le (start + file.length) files end c.1)

pub Ascending-mono :
    (low high : ℕ) (spans : List PieceFileSpan)
    → low ≤ high
    → Ascending high spans
    → Ascending low spans
Ascending-mono low high [] h a = tt
Ascending-mono low high (span ∷ spans) h a = (omega (arith, a.0), a.1)

-- The files that are left stand in the list of all files from `i` on.
abbrev Suffix : List FileEntry → ℕ → List FileEntry → Type 0
Suffix all i files = (k : ℕ) → nth all (i + k) ≡ nth files k

Suffix-tail :
    (all : List FileEntry) (i : ℕ) (f : FileEntry) (files : List FileEntry)
    → Suffix all i (f ∷ files)
    → Suffix all (suc i) files
unfolding nth
Suffix-tail all i f files s k =
    let e : suc i + k ≡ i + suc k = omega arith in ap (nth all) e ∙ s (suc k)

-- The loop, from the file `i` on: it finds all that remains, unless nothing does.
spans_from-Covers :
    (all : List FileEntry) (i : ℕ) (files : List FileEntry) (start end remaining current : ℕ)
    → Suffix all i files
    → Contiguous start files end
    → end < 2 ^ 64
    → (0 < remaining → start ≤ current)
    → current + remaining ≤ end
    → Covers all current remaining (spans_from i files remaining current)
      × Ascending i (spans_from i files remaining current)
unfolding spans_from nth
spans_from-Covers all i [] start end remaining current s c small h fits =
    elim (Bool-cases (remaining == 0)) [
      | inl e ↦ (ground arith, tt)
      | inr e ↦ let far = h (ground arith) in (omega (arith, c, far), tt)
    ]
spans_from-Covers all i (file ∷ files) start end remaining current s c small h fits =
    let below = Contiguous-le (start + file.length) files end c.1 in
    let tail = Suffix-tail all i file files s in
    let file_end : (file.offset + file.length) % 2 ^ 64 ≡ start + file.length =
      omega (arith, c.0, below) in
    elim (Bool-cases (remaining == 0)) [
      | inl none_left ↦ rw none_left (ground arith, tt)
      | inr some_left ↦
          let far = h (ground arith) in
          elim (Bool-cases (leb file.offset current && ltb current (start + file.length))) [
            | inl here ↦
                let taken = min remaining (start + file.length - current) in
                let rest =
                  spans_from-Covers all (suc i) files (start + file.length) end (remaining - taken)
                    (current + taken) tail c.1 small (λ more. ground arith) (ground arith) in
                rw (some_left, file_end, here)
                  (
                    (
                      record {
                        file = file;
                        found = subst (λ k. nth all k ≡ some file) (omega arith) (s 0);
                        place = ground (arith, c.0);
                        within = ground (arith, c.0);
                        nonempty = ground (arith, c.0);
                      },
                      ground arith,
                      rest.0,
                    ),
                    (omega arith, rest.1),
                  )
            | inr away ↦
                let rest =
                  spans_from-Covers all (suc i) files (start + file.length) end remaining current
                    tail c.1 small (λ more. ground (arith, c.0)) fits in
                rw (some_left, file_end, away)
                  (rest.0, Ascending-mono i (suc i) _ (omega arith) rest.1)
          ]
    ]

-- Where the files stand one behind the other, the spans of a range that they hold cover it exactly,
-- and no file has two of them.
pub spans_from-tile :
    (files : List FileEntry) (total offset len : ℕ)
    → Contiguous 0 files total
    → total < 2 ^ 64
    → offset + len ≤ total
    → Covers files offset len (spans_from 0 files len offset)
      × Ascending 0 (spans_from 0 files len offset)
spans_from-tile files total offset len c small fits =
    spans_from-Covers files 0 files 0 total len offset (λ k. ap (nth files) (omega arith)) c small
      (λ more. omega arith) fits
