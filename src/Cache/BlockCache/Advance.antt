-- ===== src/Cache/BlockCache/Advance.antt =====
-- The loop that hashes the blocks: it ends where no block follows, and what it was given are the
-- blocks that follow each other.
use rbitt.Prelude.{
  ℕ, zero, suc, ◌+◌, ◌%◌, ◌^◌, ◌≤◌, ◌<◌, ◌≡◌, refl, sym, ◌∙◌, subst, inl, inr, Option-cases,
  Bool-cases, none, some, List, [], ◌∷◌, ◌++◌, append_assoc, append-nil, Bytes, leb, ◌==◌,
  if◌then◌else◌, length, All, arith,
}
use rbitt.Coalesce.{Region, Ends32}
use rbitt.Cache.BlockCache.{HashState, update, block_at, advance}

-- A block that has bytes, and whose end fits a `u32`.
abbrev pub IsBlock : Region → Type 0
IsBlock r = (0 < length r.1) × Ends32 r

-- How many blocks begin at `offset` or behind it.
count_from : ℕ → List Region → ℕ
count_from offset [] = 0
count_from offset (r ∷ blocks) =
    let rest = count_from offset blocks in if leb offset r.0 then suc rest else rest

count_from-le : (offset : ℕ) (blocks : List Region) → count_from offset blocks ≤ length blocks
unfolding count_from
count_from-le offset [] = omega arith
count_from-le offset (r ∷ blocks) = ground (arith, count_from-le offset blocks)

count_from_mono :
    (low high : ℕ) (blocks : List Region)
    → low ≤ high
    → count_from high blocks ≤ count_from low blocks
unfolding count_from
count_from_mono low high [] h = omega arith
count_from_mono low high (r ∷ blocks) h = ground (arith, count_from_mono low high blocks h)

count_from-block_at :
    (offset next : ℕ) (blocks : List Region) (block : Bytes)
    → block_at offset blocks ≡ some block
    → offset < next
    → count_from next blocks < count_from offset blocks
unfolding count_from block_at
count_from-block_at offset next [] block e h = cc
count_from-block_at offset next ((o, b) ∷ blocks) block e h = ground (
  arith,
  count_from_mono offset next blocks (omega arith),
  count_from-block_at offset next blocks block,
)

block_at-IsBlock :
    (offset : ℕ) (blocks : List Region) (block : Bytes)
    → All IsBlock blocks
    → block_at offset blocks ≡ some block
    → IsBlock (offset, block)
unfolding block_at
block_at-IsBlock offset [] block all e = cc
block_at-IsBlock offset ((o, b) ∷ blocks) block all e = elim (Bool-cases (o == offset)) [
  | inl same ↦
      let here : some b ≡ some block = rw same at e in
      let b_eq : b ≡ block = cc in
      let o_eq : o ≡ offset = ground arith in
      subst (λ x. IsBlock (x, block)) o_eq (subst (λ x. IsBlock (o, x)) b_eq all.0)
  | inr other ↦ block_at-IsBlock offset blocks block all.1 (rw other at e)
]

-- The bytes from `start` to `end` are blocks that follow each other.
pub data Chain (blocks : List Region) : ℕ → Bytes → ℕ → Type 0 where
  stops : {at : ℕ} → Chain blocks at [] at
  follows :
      {start end : ℕ} {block rest : Bytes}
      → block_at start blocks ≡ some block
      → Chain blocks (start + length block) rest end
      → Chain blocks start (block ++ rest) end

-- Within so many rounds the loop ends at `end` with the state `last`, having fed `bytes`: the blocks
-- that follow each other up to there. No block begins at `end`.
abbrev pub Hashed : ℕ → List Region → HashState → ℕ → Type 0
Hashed fuel blocks state next_offset =
    (bytes : Bytes) × (end : ℕ) × (last : HashState) × (advance fuel blocks state next_offset
      ≡ some (last, end))
    × Chain blocks next_offset bytes end
    × (last.fed ≡ state.fed ++ bytes)
    × (block_at end blocks ≡ none)

-- The loop, with enough rounds for the blocks from `next_offset` on.
advance-Chain :
    (fuel : ℕ) (blocks : List Region) (state : HashState) (next_offset : ℕ)
    → All IsBlock blocks
    → count_from next_offset blocks ≤ fuel
    → Hashed fuel blocks state next_offset
unfolding advance update
advance-Chain zero blocks state next all h = elim (Option-cases (block_at next blocks)) [
  | inl e ↦ ([], next, state, rw (e, advance) refl, stops, sym (append-nil state.fed), e)
  | inr (block, e) ↦
      absurd (omega (arith, h, count_from-block_at next (suc next) blocks block e (omega arith)))
]
advance-Chain (suc fuel) blocks state next all h = elim (Option-cases (block_at next blocks)) [
  | inl e ↦ ([], next, state, rw (e, advance) refl, stops, sym (append-nil state.fed), e)
  | inr (block, e) ↦
      let is_block = block_at-IsBlock next blocks block all e in
      let sum : (next + length block % 2 ^ 32) % 2 ^ 32 ≡ next + length block =
        omega (arith, is_block.1) in
      let step : advance (suc fuel) blocks state next
          ≡ advance fuel blocks (update state block) (next + length block) =
        rw (e, advance, sum) refl in
      let (rest, end, last, runs, chain, fed, no_more) =
        advance-Chain fuel blocks (record state { fed = state.fed ++ block }) (next + length block)
          all
          (omega (
            arith,
            h,
            count_from-block_at next (next + length block) blocks block e
                (omega (arith, is_block.0)),
          )) in
      (
        block ++ rest,
        end,
        last,
        step ∙ runs,
        follows e chain,
        fed ∙ append_assoc state.fed block rest,
        no_more,
      )
]

-- Where every block has bytes and its end fits 32 bits, one round for each block is enough: the loop
-- ends at an offset where no block begins, and it has fed the hash function exactly the blocks that
-- follow each other up to there.
pub advance_enough :
    (blocks : List Region) (state : HashState) (next_offset : ℕ)
    → All IsBlock blocks
    → Hashed (length blocks) blocks state next_offset
advance_enough blocks state next all =
    advance-Chain (length blocks) blocks state next all (count_from-le next blocks)

-- At a block without bytes the loop goes round for ever.
pub advance_empty :
    (fuel : ℕ) (blocks : List Region) (state : HashState) (next_offset : ℕ)
    → next_offset < 2 ^ 32
    → block_at next_offset blocks ≡ some []
    → advance fuel blocks state next_offset ≡ none
unfolding advance
advance_empty zero blocks state next small e = rw (e, advance) refl
advance_empty (suc fuel) blocks state next small e =
    let same : (next + 0 % 2 ^ 32) % 2 ^ 32 ≡ next = omega arith in
    rw (e, advance, same) (advance_empty fuel blocks (update state []) next small e)
