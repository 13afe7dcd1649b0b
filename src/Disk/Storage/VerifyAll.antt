-- ===== src/Disk/Storage/VerifyAll.antt =====
-- src-tauri/crates/oxidebt-disk/src/manager.rs, `TorrentStorage::verify_all`: the pieces are read and
-- hashed in batches. Whether the clock runs out for the batch that begins with a piece is the
-- parameter `times_out`; no piece of such a batch counts as valid.
use rbitt.Prelude.{
  ℕ, zero, suc, ◌+◌, ◌-◌, ◌≤◌, ◌<◌, ◌≡◌, ◌≢◌, ◌∙◌, subst, min, inl, inr, Bool, false, Bool-cases,
  List, Bytes, ltb, ◌==◌, if◌then◌else◌, length, get_or, set, replicate, length-set,
  length-replicate, get_or-set_self, get_or-set_ne, arith,
}
use rbitt.Disk.Error.{Result, ok, err}
use rbitt.Disk.Files.{Disk}
use rbitt.Disk.Storage.{TorrentStorage, verify_piece}

abbrev pub batch_size : ℕ
batch_size = 32

-- An error counts as not valid.
unfoldable pub is_valid : Result Bool → Bool
is_valid (ok valid) = valid
is_valid (err e) = false

module _ (sha1 sha256 : Bytes → Bytes) (times_out : ℕ → Bool) (s : TorrentStorage)
    (disk : Disk) where
  -- The results of `count` pieces of a batch, from the piece `index` on.
  unfoldable pub fill : ℕ → ℕ → List Bool → List Bool
  unfolding is_valid
  fill index zero results = results
  fill index (suc count) results =
      fill (suc index) count (set results index (is_valid (verify_piece sha1 sha256 s disk index)))

  -- The loop over the batches.
  unfoldable pub verify_batches : ℕ → ℕ → List Bool → List Bool
  unfolding fill
  verify_batches zero batch_start results = results
  verify_batches (suc fuel) batch_start results =
      let batch_end = min (batch_start + batch_size) (length s.pieces) in
      let batch =
        if times_out batch_start
        then results
        else fill batch_start (batch_end - batch_start) results in
      let all = verify_batches fuel (batch_start + batch_size) batch in
      if ltb batch_start (length s.pieces) then all else results

  unfoldable pub verify_all : List Bool
  unfolding verify_batches
  verify_all = verify_batches (length s.pieces) 0 (replicate (length s.pieces) false)

  valid_at : ℕ → Bool
  valid_at i = is_valid (verify_piece sha1 sha256 s disk i)

  -- Entries behind `index` are not filled in; those up to there are those of the pieces.
  FilledTo : ℕ → List Bool → Type 0
  FilledTo index results =
      (length results ≡ length s.pieces)
      × ((i : ℕ) → i < index → i < length s.pieces → get_or results i false ≡ valid_at i)

  fill-FilledTo :
      (index count : ℕ) (results : List Bool)
      → index + count ≤ length s.pieces
      → FilledTo index results
      → FilledTo (index + count) (fill index count results)
  unfolding fill FilledTo valid_at
  fill-FilledTo index zero results h f = (f.0, λ i below small. f.1 i (omega arith) small)
  fill-FilledTo index (suc count) results h f =
      let more =
        fill-FilledTo (suc index) count (set results index (valid_at index)) (omega arith) (
          length-set results index (valid_at index) ∙ f.0,
          λ i below small. elim (Bool-cases (index == i)) [
            | inl e ↦
                let same : index ≡ i = ground arith in
                subst (λ j. get_or (set results index (valid_at index)) j false ≡ valid_at j) same
                  (get_or-set_self results index (valid_at index) false (omega (arith, f.0)))
            | inr e ↦
                let other : index ≢ i = ground arith in
                get_or-set_ne results index i (valid_at index) false other
                ∙ f.1 i (ground arith) small
          ],
        ) in
      (more.0, λ i below small. more.1 i (omega arith) small)

  verify_batches-FilledTo :
      (fuel batch_start : ℕ) (results : List Bool)
      → ((i : ℕ) → times_out i ≡ false)
      → length s.pieces ≤ batch_start + fuel
      → FilledTo batch_start results
      → FilledTo (length s.pieces) (verify_batches fuel batch_start results)
  unfolding verify_batches FilledTo
  verify_batches-FilledTo zero batch_start results never enough f =
      (f.0, λ i below small. f.1 i (omega arith) small)
  verify_batches-FilledTo (suc fuel) batch_start results never enough f =
      elim (Bool-cases (ltb batch_start (length s.pieces))) [
        | inl more ↦
            let batch_end = min (batch_start + batch_size) (length s.pieces) in
            let filled =
              fill-FilledTo batch_start (batch_end - batch_start) results (ground arith) f in
            rw (more, never batch_start)
              (verify_batches-FilledTo fuel (batch_start + batch_size)
                (fill batch_start (batch_end - batch_start) results) never (omega arith)
                (filled.0, λ i below small. filled.1 i (ground arith) small))
        | inr done ↦ rw done (f.0, λ i below small. f.1 i (ground arith) small)
      ]

  -- Where no batch runs out of time, the result has one entry for each piece, and it says whether
  -- the piece can be read and has the expected hash.
  pub verify_all_complete :
      ((i : ℕ) → times_out i ≡ false)
      → (length verify_all ≡ length s.pieces)
        × ((i : ℕ)
            → i < length s.pieces
            → get_or verify_all i false ≡ is_valid (verify_piece sha1 sha256 s disk i))
  unfolding verify_all FilledTo valid_at
  verify_all_complete never =
      let n = length s.pieces in
      let filled =
        verify_batches-FilledTo n 0 (replicate n false) never (omega arith)
          (length-replicate n false, λ i below small. absurd (omega arith)) in
      (filled.0, λ i small. filled.1 i small small)
