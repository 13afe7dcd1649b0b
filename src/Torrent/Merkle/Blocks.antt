-- ===== src/Torrent/Merkle/Blocks.antt =====
-- The tree over the blocks of a piece: each block is a leaf, and its proof passes.
use rbitt.Prelude.{
  ℕ, zero, suc, ◌+◌, ◌*◌, ◌≤◌, ◌<◌, ◌≡◌, refl, ap, ◌∙◌, subst, true, Bytes, ltb, length, get_or,
  arith,
}
use rbitt.Torrent.Merkle.{
  block_size, zero_hash, div_ceil, power_from, next_power_of_two, hash_leaf, block_at, leaves_from,
  from_leaves, from_piece_data, generate_proof, verify_proof, verify_block,
}
use rbitt.Torrent.Merkle.Layers.{verify_proof-generate_proof}

power_from-ge : (fuel p n : ℕ) → 1 ≤ p → n ≤ p + fuel → n ≤ power_from fuel p n
unfolding power_from
power_from-ge zero p n h e = omega arith
power_from-ge (suc fuel) p n h e = ground (arith, power_from-ge fuel (p * 2) n)

module _ (sha256 : Bytes → Bytes) (piece : Bytes) where
  length-leaves_from : (i n : ℕ) → length (leaves_from sha256 piece i n) ≡ n
  unfolding leaves_from
  length-leaves_from i zero = refl
  length-leaves_from i (suc n) = ap suc (length-leaves_from (suc i) n)

  get_or-leaves_from :
      (i n k : ℕ)
      → k < n
      → i + k < div_ceil (length piece) block_size
      → get_or (leaves_from sha256 piece i n) k zero_hash
        ≡ hash_leaf sha256 (block_at piece (i + k))
  unfolding leaves_from
  get_or-leaves_from i zero k h b = absurd (omega arith)
  get_or-leaves_from i (suc n) zero h b =
      let same : i + 0 ≡ i = omega arith in
      let yes : ltb i (div_ceil (length piece) block_size) ≡ true = ground arith in
      rw (yes, same) refl
  get_or-leaves_from i (suc n) (suc k) h b =
      let same : suc i + k ≡ i + suc k = omega arith in
      get_or-leaves_from (suc i) n k (omega arith) (omega arith)
      ∙ ap (λ j. hash_leaf sha256 (block_at piece j)) same

  -- Every block of a piece passes with the proof that the tree over the piece gives for it.
  pub verify_block-generate_proof :
      (index : ℕ)
      → index < div_ceil (length piece) block_size
      → verify_block sha256
          (from_piece_data sha256 piece)
          index
          (block_at piece index)
          (generate_proof (from_piece_data sha256 piece) index)
        ≡ true
  unfolding verify_block from_piece_data
  verify_block-generate_proof index h =
      let blocks = div_ceil (length piece) block_size in
      let n = next_power_of_two blocks in
      let leaves = leaves_from sha256 piece 0 n in
      let enough = power_from-ge blocks 1 blocks (omega arith) (omega arith) in
      let leaf : get_or leaves index zero_hash ≡ hash_leaf sha256 (block_at piece index) =
        (let at : 0 + index ≡ index = omega arith in
          get_or-leaves_from 0 n index (omega (arith, enough)) (omega (arith, h))
          ∙ ap (λ j. hash_leaf sha256 (block_at piece j)) at) in
      subst
        (λ l.
          verify_proof sha256 (from_leaves sha256 leaves) index l
            (generate_proof (from_leaves sha256 leaves) index)
          ≡ true)
        leaf
        (verify_proof-generate_proof sha256 leaves index
          (omega (arith, enough, length-leaves_from 0 n)))
