-- ===== src/Coalesce.antt =====
-- The loop that joins blocks which follow each other, in the order of their offsets:
-- `coalesce_blocks` of src-tauri/crates/oxidebt-disk/src/coalescer.rs and `PieceBlocks::coalesce` of
-- src-tauri/crates/oxidebt-cache/src/block_cache.rs have it alike.
use rbitt.Prelude.{
  ℕ, suc, ◌+◌, ◌%◌, ◌^◌, ◌<◌, ◌≡◌, ◌≢◌, refl, ap, ◌∙◌, inl, inr, Bool-cases, List, [], ◌∷◌, ◌++◌,
  append_assoc, Bytes, ◌==◌, if◌then◌else◌, length, length-append, All, arith,
}

-- An offset and the bytes from there on.
abbrev pub Region : Type 0
Region = ℕ × Bytes

-- The regions, where `start` and `buf` are the region that grows. The end of it is a `u32`.
unfoldable pub grow : ℕ → Bytes → List Region → List Region
grow start buf [] = (start, buf) ∷ []
grow start buf ((offset, block) ∷ blocks) =
    let joined = grow start (buf ++ block) blocks in
    let apart = grow offset block blocks in
    if (start + length buf % 2 ^ 32) % 2 ^ 32 == offset then joined else (start, buf) ∷ apart

unfoldable pub regions : List Region → List Region
unfolding grow
regions [] = []
regions ((offset, block) ∷ blocks) = grow offset block blocks

-- The bytes with their places.
unfoldable pub cells : ℕ → Bytes → List (ℕ × ℕ)
cells at [] = []
cells at (b ∷ bs) = (at, b) ∷ cells (suc at) bs

unfoldable pub all_cells : List Region → List (ℕ × ℕ)
unfolding cells
all_cells [] = []
all_cells ((offset, block) ∷ blocks) = cells offset block ++ all_cells blocks

-- The end of a block fits a `u32`.
abbrev pub Ends32 : Region → Type 0
Ends32 r = r.0 + length r.1 < 2 ^ 32

-- No region begins where the one before it ends.
abbrev pub Apart : List Region → Type 0
Apart [] = Unit
Apart (r ∷ []) = Unit
Apart (r ∷ s ∷ rest) = (r.0 + length r.1 ≢ s.0) × Apart (s ∷ rest)

cells-append :
    (at : ℕ) (xs ys : Bytes) → cells at (xs ++ ys) ≡ cells at xs ++ cells (at + length xs) ys
unfolding cells
cells-append at [] ys = ap (λ k. cells k ys) (omega arith)
cells-append at (x ∷ xs) ys =
    let e : suc at + length xs ≡ at + suc (length xs) = omega arith in
    ap (λ t. (at, x) ∷ t)
      (cells-append (suc at) xs ys ∙ ap (λ k. cells (suc at) xs ++ cells k ys) e)

grow-cells :
    (start : ℕ) (buf : Bytes) (blocks : List Region)
    → Ends32 (start, buf)
    → All Ends32 blocks
    → all_cells (grow start buf blocks) ≡ cells start buf ++ all_cells blocks
unfolding grow all_cells
grow-cells start buf [] h all = refl
grow-cells start buf ((offset, block) ∷ blocks) h all =
    elim (Bool-cases ((start + length buf % 2 ^ 32) % 2 ^ 32 == offset)) [
      | inl e ↦
          let follows : start + length buf ≡ offset = ground arith in
          let ends : Ends32 (start, buf ++ block) =
            omega (arith, length-append buf block, follows, all.0) in
          rw e (
            grow-cells start (buf ++ block) blocks ends all.1
            ∙ ap (λ c. c ++ all_cells blocks) (cells-append start buf block)
            ∙ append_assoc (cells start buf) (cells (start + length buf) block) (all_cells blocks)
            ∙ ap (λ k. cells start buf ++ (cells k block ++ all_cells blocks)) follows)
      | inr e ↦ rw e (ap (λ c. cells start buf ++ c) (grow-cells offset block blocks all.0 all.1))
    ]

-- What `grow` begins with.
grow-head :
    (start : ℕ) (buf : Bytes) (blocks : List Region)
    → (buf' : Bytes) × (rest : List Region) × (grow start buf blocks ≡ (start, buf') ∷ rest)
unfolding grow
grow-head start buf [] = (buf, [], refl)
grow-head start buf ((offset, block) ∷ blocks) =
    elim (Bool-cases ((start + length buf % 2 ^ 32) % 2 ^ 32 == offset)) [
      | inl e ↦ rw e (grow-head start (buf ++ block) blocks)
      | inr e ↦ rw e (buf, grow offset block blocks, refl)
    ]

grow-Apart :
    (start : ℕ) (buf : Bytes) (blocks : List Region)
    → Ends32 (start, buf)
    → All Ends32 blocks
    → Apart (grow start buf blocks)
unfolding grow
grow-Apart start buf [] h all = tt
grow-Apart start buf ((offset, block) ∷ blocks) h all =
    elim (Bool-cases ((start + length buf % 2 ^ 32) % 2 ^ 32 == offset)) [
      | inl e ↦
          let follows : start + length buf ≡ offset = ground arith in
          let ends : Ends32 (start, buf ++ block) =
            omega (arith, length-append buf block, follows, all.0) in
          rw e (grow-Apart start (buf ++ block) blocks ends all.1)
      | inr e ↦
          let gap : start + length buf ≢ offset = ground arith in
          let head = grow-head offset block blocks in
          rw (e, head.2) (gap, rw head.2 at (grow-Apart offset block blocks all.0 all.1))
    ]

-- The regions hold every byte of the blocks at its place and in its order, and none of them begins
-- where the one before it ends.
pub regions-joined :
    (blocks : List Region)
    → All Ends32 blocks
    → (all_cells (regions blocks) ≡ all_cells blocks) × Apart (regions blocks)
unfolding regions all_cells
regions-joined [] all = (refl, tt)
regions-joined ((offset, block) ∷ blocks) all =
    (grow-cells offset block blocks all.0 all.1, grow-Apart offset block blocks all.0 all.1)
