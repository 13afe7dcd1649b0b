-- ===== src/Disk/Coalescer.antt =====
-- src-tauri/crates/oxidebt-disk/src/coalescer.rs: the regions that blocks of a piece are written as.
-- The channel that `WriteCoalescer` sends requests into is left out.
use mathlib.Core.List.{Perm}
use rbitt.Prelude.{ℕ, ◌≡◌, refl, ap, List, [], ◌∷◌, Bytes, All, Bool, ltb, arith}
use rbitt.Prelude.Sort.{sort, Sorted, sort-Perm, sort-Sorted, sort-All}
use rbitt.Coalesce.{Region, regions, all_cells, Ends32, Apart, regions-joined}

pub record WriteRegion : Type 0 where
  pub file_index : ℕ
  pub file_offset : ℕ
  pub bytes : Bytes

unfoldable pub to_write_regions : List Region → List WriteRegion
to_write_regions [] = []
to_write_regions ((start, buf) ∷ rest) =
    record { file_index = 0; file_offset = start; bytes = buf } ∷ to_write_regions rest

-- `sort_by_key(|(offset, _)| *offset)`
abbrev pub before : Region → Region → Bool
before a b = ltb a.0 b.0

unfoldable pub coalesce_blocks : List Region → List WriteRegion
unfolding to_write_regions
coalesce_blocks blocks = to_write_regions (regions (sort before blocks))

abbrev pub from_write_regions : List WriteRegion → List Region
from_write_regions [] = []
from_write_regions (r ∷ rest) = (r.file_offset, r.bytes) ∷ from_write_regions rest

from-to : (rs : List Region) → from_write_regions (to_write_regions rs) ≡ rs
unfolding to_write_regions
from-to [] = refl
from-to ((start, buf) ∷ rest) = ap (λ t. (start, buf) ∷ t) (from-to rest)

-- The blocks, put in the order of their offsets, have the same bytes at the same places as the
-- regions, in the same order; and no region begins where the one before it ends.
pub coalesce_blocks-joined :
    (blocks : List Region)
    → All Ends32 blocks
    → (sorted : List Region) × Perm sorted blocks
      × Sorted before sorted
      × (all_cells (from_write_regions (coalesce_blocks blocks)) ≡ all_cells sorted)
      × Apart (from_write_regions (coalesce_blocks blocks))
unfolding coalesce_blocks
coalesce_blocks-joined blocks all =
    let sorted = sort before blocks in
    let joined = regions-joined sorted (sort-All before Ends32 blocks all) in
    (
      sorted,
      sort-Perm before blocks,
      sort-Sorted before (λ a b h. ground arith) (λ a b c h k. ground arith) blocks,
      rw (from-to (regions sorted)) joined.0,
      rw (from-to (regions sorted)) joined.1,
    )
