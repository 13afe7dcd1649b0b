-- ===== src/Disk/Storage/Safe.antt =====
-- A storage is made only where every file stays inside the torrent's folder.
use rbitt.Prelude.{◌≡◌, refl, sym, subst, Bool, List, [], ◌∷◌, Bytes, All, inl, inr, ◌⊎◌, ℕ, ap}
use rbitt.Disk.Error.{Result, ok, err, and_then, DiskError}
use rbitt.Disk.Path.{validate_file_path}
use rbitt.Disk.Path.Inside.{resolve, Inside, validate_file_path-Inside}
use rbitt.Disk.Storage.{FileEntry, PieceInfo, TorrentStorage, validate_all_file_paths, new}

Result-cases :
    {A : Type 0} (r : Result A) → ((a : A) × (r ≡ ok a)) ⊎ ((e : DiskError) × (r ≡ err e))
Result-cases (ok a) = inl (a, refl)
Result-cases (err e) = inr (e, refl)

All-Inside :
    (folder : List Bytes) (files : List FileEntry)
    → validate_all_file_paths files ≡ ok tt
    → All (λ f. Inside folder (resolve folder f.path)) files
unfolding validate_all_file_paths and_then
All-Inside folder [] h = tt
All-Inside folder (file ∷ files) h = elim (Result-cases (validate_file_path file.path)) [
  | inl (u, e) ↦ (validate_file_path-Inside folder file.path e, All-Inside folder files (rw e at h))
  | inr (x, e) ↦ let no : err x ≡ ok tt = rw e at h in cc
]

files_of : Result TorrentStorage → List FileEntry
files_of (ok s) = s.files
files_of (err e) = []

-- Where `new` succeeds, the storage has the given files, and every one of them lies in the folder
-- that it is given, whatever folder that is.
pub new-Inside :
    (folder : List Bytes) (files : List FileEntry) (pieces : List PieceInfo) (total_length : ℕ)
    (is_v2 : Bool) (s : TorrentStorage)
    → new files pieces total_length is_v2 ≡ ok s
    → (s.files ≡ files) × All (λ f. Inside folder (resolve folder f.path)) s.files
unfolding new and_then files_of
new-Inside folder files pieces total_length is_v2 s h =
    elim (Result-cases (validate_all_file_paths files)) [
      | inl (u, e) ↦
          let same : files ≡ s.files = ap files_of (rw e at h) in
          (
            sym same,
            subst (λ fs. All (λ f. Inside folder (resolve folder f.path)) fs) same
                (All-Inside folder files e),
          )
      | inr (x, e) ↦ let no : err x ≡ ok s = rw e at h in cc
    ]
