-- ===== src/Cache/Ghost.antt =====
-- src-tauri/crates/oxidebt-cache/src/piece_cache.rs, `GhostList`: the keys of evicted pieces.
use rbitt.Prelude.{
  ℕ, Bool, true, false, Option, none, some, List, [], ◌∷◌, ◌++◌, if◌then◌else◌, length,
}
use rbitt.Cache.Key.{CacheKey, holds, without}

pub record GhostList : Type 0 where
  pub keys : List CacheKey
  pub set : List CacheKey

unfoldable pub new : GhostList
new = record { keys = []; set = [] }

unfoldable pub key_count : GhostList → ℕ
key_count g = length g.set

unfoldable pub contains : GhostList → CacheKey → Bool
contains g key = holds key g.set

unfoldable pub insert : GhostList → CacheKey → GhostList
insert g key =
    if holds key g.set then g else record { keys = g.keys ++ (key ∷ []); set = key ∷ g.set }

unfoldable pub remove : GhostList → CacheKey → GhostList × Bool
remove g key =
    if holds key g.set
    then (record { keys = without key g.keys; set = without key g.set }, true)
    else (g, false)

-- The loop of `pop_front`, over the keys.
unfoldable pub pop_from : List CacheKey → List CacheKey → GhostList × Option CacheKey
pop_from [] set = (record { keys = []; set = set }, none)
pop_from (key ∷ keys) set =
    let rest = pop_from keys set in
    if holds key set then (record { keys = keys; set = without key set }, some key) else rest

unfoldable pub pop_front : GhostList → GhostList × Option CacheKey
unfolding pop_from
pop_front g = pop_from g.keys g.set

unfoldable pub clear : GhostList → GhostList
clear g = record { keys = []; set = [] }
