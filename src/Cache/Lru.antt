-- ===== src/Cache/Lru.antt =====
-- src-tauri/crates/oxidebt-cache/src/piece_cache.rs, `LruList`: pieces in the order of their use.
pub mod Sizes
use rbitt.Prelude.{ℕ, Bool, Option, none, some, List, [], ◌∷◌, ◌++◌, Bytes, if◌then◌else◌, length}
use rbitt.Prelude.Maps.{is_some}
use rbitt.Cache.Key.{CacheKey, without, lookup, delete, store}

pub record CachedPiece : Type 0 where
  pub bytes : Bytes
  pub verified : Bool

abbrev pub size : CachedPiece → ℕ
size piece = length piece.bytes

pub record LruList : Type 0 where
  pub order : List CacheKey
  pub entries : List (CacheKey × CachedPiece)

unfoldable pub new : LruList
new = record { order = []; entries = [] }

unfoldable pub entry_count : LruList → ℕ
entry_count l = length l.entries

unfoldable pub contains : LruList → CacheKey → Bool
contains l key = is_some (lookup key l.entries)

unfoldable pub get : LruList → CacheKey → Option CachedPiece
get l key = lookup key l.entries

-- The new size and the old one.
unfoldable pub insert : LruList → CacheKey → CachedPiece → LruList × ℕ × ℕ
insert l key piece = elim (lookup key l.entries) [
  | some old_piece ↦ (record l { entries = store key piece l.entries }, size piece, size old_piece)
  | none ↦ (
    record l { entries = store key piece l.entries; order = l.order ++ (key ∷ []) },
    size piece,
    0,
  )
]

unfoldable pub remove : LruList → CacheKey → LruList × Option CachedPiece
remove l key = elim (lookup key l.entries) [
  | some piece ↦
      (record { order = without key l.order; entries = delete key l.entries }, some piece)
  | none ↦ (l, none)
]

-- The loop of `pop_front`, over the order.
unfoldable pub pop_from :
    List CacheKey → List (CacheKey × CachedPiece) → LruList × Option (CacheKey × CachedPiece)
pop_from [] entries = (record { order = []; entries = entries }, none)
pop_from (key ∷ order) entries =
    let rest = pop_from order entries in
    elim (lookup key entries) [
      | some piece ↦ (record { order = order; entries = delete key entries }, some (key, piece))
      | none ↦ rest
    ]

unfoldable pub pop_front : LruList → LruList × Option (CacheKey × CachedPiece)
unfolding pop_from
pop_front l = pop_from l.order l.entries

unfoldable pub move_to_back : LruList → CacheKey → LruList
move_to_back l key =
    if is_some (lookup key l.entries)
    then record l { order = without key l.order ++ (key ∷ []) }
    else l

unfoldable pub clear : LruList → LruList
clear l = record { order = []; entries = [] }
