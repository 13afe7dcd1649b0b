-- ===== src/Disk/Files.antt =====
-- What the disk manager uses of the file system: the contents of the files in the folder of the
-- torrent, and where a file can be opened. An open file reads and writes the same contents as one opened anew, so
-- that the cache of handles in src-tauri/crates/oxidebt-disk/src/manager.rs has no part in it.
use rbitt.Prelude.{
  ℕ, ◌+◌, ◌-◌, Bool, true, false, not, ◌&&◌, ◌||◌, List, ◌∷◌, Option, none, some, [], ◌++◌, Bytes,
  leb, if◌then◌else◌, length, take, drop, replicate,
}
use rbitt.Disk.Error.{Result, ok, err, unexpected_eof}
use rbitt.Prelude.Same.{same_bytes}
use rbitt.Disk.Path.{FilePath}
use rbitt.Disk.Path.Inside.{resolve}

-- Where a file lies in the folder of the torrent: the names on the way to it, the last one first. Two
-- paths that differ in `.` only lead to one place. Different names are different files.
abbrev pub Place : Type 0
Place = List Bytes

abbrev pub place : FilePath → Place
place path = resolve [] path

unfoldable pub same_place : Place → Place → Bool
same_place [] [] = true
same_place [] (y ∷ q) = false
same_place (x ∷ p) [] = false
same_place (x ∷ p) (y ∷ q) = same_bytes x y && same_place p q

-- The place is the folder or lies in it.
unfoldable pub within : Place → Place → Bool
unfolding same_place
within folder [] = same_place folder []
within folder (name ∷ rest) = same_place folder (name ∷ rest) || within folder rest

-- Neither place is the other or lies in it, so that both can be files.
unfoldable pub apart : Place → Place → Bool
unfolding within
apart p q = not (within p q) && not (within q p)

-- `can_open` tells where `create_dir_all` for the folder above and `open` with `create` succeed. A
-- failed attempt changes nothing.
pub record Disk : Type 0 where
  pub contents : Place → Option Bytes
  pub can_open : Place → Bool

-- A file that is there takes up its place: nothing can be opened below it, and the folders above it
-- cannot be opened as files.
unfoldable pub write_file : Disk → Place → Bytes → Disk
write_file disk at content = record {
  contents = λ other. if same_place at other then some content else disk.contents other;
  can_open = λ other. disk.can_open other && (same_place at other || apart at other);
}

-- `seek` and `read_exact`
unfoldable pub read_at : Bytes → ℕ → ℕ → Result Bytes
read_at content offset len =
    if leb (offset + len) (length content)
    then ok (take len (drop offset content))
    else err unexpected_eof

-- `seek` and `write_all`: what lies between the end of the file and the offset becomes zeros.
unfoldable pub write_at : Bytes → ℕ → Bytes → Bytes
write_at content offset chunk =
    take offset (content ++ replicate (offset - length content) 0)
    ++ (chunk ++ drop (offset + length chunk) content)

-- `set_len`
unfoldable pub set_len : Bytes → ℕ → Bytes
set_len content len = take len (content ++ replicate (len - length content) 0)

-- The contents that `open` with `create` finds.
unfoldable pub open_or_create : Option Bytes → Bytes
open_or_create none = []
open_or_create (some content) = content
