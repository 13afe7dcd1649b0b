-- ===== src/Disk/Path/Inside.antt =====
-- A path that passes the check stays inside the folder that it is joined to.
use rbitt.Prelude.{◌≡◌, refl, sym, ◌∙◌, List, [], ◌∷◌, ◌++◌, append_assoc, Bytes}
use rbitt.Disk.Error.{ok}
use rbitt.Disk.Path.{prefix, root_dir, cur_dir, parent_dir, normal, FilePath, validate_file_path}

-- Where a path leads from a folder: the names of the folders on the way from the root, the last one
-- first. A path with a root or a prefix starts anew.
unfoldable pub resolve : List Bytes → FilePath → List Bytes
resolve folder [] = folder
resolve folder (prefix p ∷ rest) = resolve [] rest
resolve folder (root_dir ∷ rest) = resolve [] rest
resolve folder (cur_dir ∷ rest) = resolve folder rest
resolve [] (parent_dir ∷ rest) = resolve [] rest
resolve (name ∷ folder) (parent_dir ∷ rest) = resolve folder rest
resolve folder (normal name ∷ rest) = resolve (name ∷ folder) rest

-- The place lies in the folder.
abbrev pub Inside : List Bytes → List Bytes → Type 0
Inside folder place = (below : List Bytes) × (place ≡ below ++ folder)

pub validate_file_path-Inside :
    (folder : List Bytes) (path : FilePath)
    → validate_file_path path ≡ ok tt
    → Inside folder (resolve folder path)
unfolding validate_file_path resolve
validate_file_path-Inside folder [] h = ([], refl)
validate_file_path-Inside folder (prefix p ∷ rest) h = cc
validate_file_path-Inside folder (root_dir ∷ rest) h = cc
validate_file_path-Inside folder (cur_dir ∷ rest) h = validate_file_path-Inside folder rest h
validate_file_path-Inside folder (parent_dir ∷ rest) h = cc
validate_file_path-Inside folder (normal name ∷ rest) h =
    let deeper = validate_file_path-Inside (name ∷ folder) rest h in
    (deeper.0 ++ (name ∷ []), deeper.1 ∙ sym (append_assoc deeper.0 (name ∷ []) folder))
