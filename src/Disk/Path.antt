-- ===== src/Disk/Path.antt =====
-- src-tauri/crates/oxidebt-disk/src/manager.rs, the checks of file paths. A path is the sequence of
-- components that `Path::components` gives.
pub mod Inside
use rbitt.Prelude.{Bool, true, false, ◌&&◌, List, [], ◌∷◌, Bytes}
use rbitt.Prelude.Same.{same_bytes}
use rbitt.Disk.Error.{Result, ok, err, path_traversal}

-- `std::path::Component`
pub data Component : Type 0 where
  prefix : Bytes → Component
  root_dir : Component
  cur_dir : Component
  parent_dir : Component
  normal : Bytes → Component

abbrev pub FilePath : Type 0
FilePath = List Component

unfoldable pub validate_file_path : FilePath → Result (Unit {0})
validate_file_path [] = ok tt
validate_file_path (parent_dir ∷ rest) = err path_traversal
validate_file_path (root_dir ∷ rest) = err path_traversal
validate_file_path (prefix p ∷ rest) = err path_traversal
validate_file_path (cur_dir ∷ rest) = validate_file_path rest
validate_file_path (normal name ∷ rest) = validate_file_path rest
