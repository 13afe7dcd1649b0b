-- ===== src/Torrent/Merkle/Layers.antt =====
-- The layers of a Merkle tree: each node above the leaves is the hash of two nodes below it, and a
-- proof climbs from a leaf to the root.
use rbitt.Prelude.{
  ℕ, zero, suc, ◌+◌, ◌-◌, ◌*◌, ◌/◌, ◌%◌, ◌≤◌, ◌<◌, ◌≡◌, refl, sym, ap, ◌∙◌, inl, inr, true, false,
  Bool-cases, List, [], ◌∷◌, Bytes, ltb, ◌==◌, if◌then◌else◌, length, get_or, get_or_beyond, arith,
}
use mathlib.Core.Path.{ap₂}
use rbitt.Prelude.Same.{same_bytes_refl}
use rbitt.Torrent.Merkle.{
  zero_hash, last_layer, root, sibling, siblings, generate_proof, hash_pair, pairs, layers_from,
  from_leaves, parent, climb, verify_proof,
}

-- The node beside the one at `index`, and zeros where the layer has none there.
pub sibling-get_or :
    (layer : List Bytes) (index : ℕ)
    → sibling layer index ≡ get_or layer (if index % 2 == 0 then index + 1 else index - 1) zero_hash
unfolding sibling
sibling-get_or layer index =
    let at = if index % 2 == 0 then index + 1 else index - 1 in
    elim (Bool-cases (ltb at (length layer))) [
      | inl e ↦ rw e refl
      | inr e ↦ rw e (sym (get_or_beyond layer at zero_hash (ground arith)))
    ]

module _ (sha256 : Bytes → Bytes) where
  pub length-pairs : (layer : List Bytes) → length (pairs sha256 layer) ≡ (length layer + 1) / 2
  unfolding pairs
  length-pairs [] = omega arith
  length-pairs (a ∷ []) = omega arith
  length-pairs (a ∷ b ∷ rest) = omega (arith, length-pairs rest)

  pub get_or-pairs :
      (layer : List Bytes) (j : ℕ)
      → j * 2 < length layer
      → get_or (pairs sha256 layer) j zero_hash
        ≡ hash_pair sha256 (get_or layer (j * 2) zero_hash) (get_or layer (j * 2 + 1) zero_hash)
  unfolding pairs
  get_or-pairs [] j h = absurd (omega arith)
  get_or-pairs (a ∷ []) zero h = refl
  get_or-pairs (a ∷ []) (suc j) h = absurd (omega arith)
  get_or-pairs (a ∷ b ∷ rest) zero h = refl
  get_or-pairs (a ∷ b ∷ rest) (suc j) h =
      let e : suc j * 2 ≡ suc (suc (j * 2)) = omega arith in
      let d : suc j * 2 + 1 ≡ suc (suc (j * 2 + 1)) = omega arith in
      rw (d, e) (get_or-pairs rest j (omega arith))

  -- The node above `index` is the hash of the node there and of the one beside it.
  pub parent-sibling :
      (layer : List Bytes) (index : ℕ)
      → index < length layer
      → parent sha256 index (get_or layer index zero_hash) (sibling layer index)
        ≡ get_or (pairs sha256 layer) (index / 2) zero_hash
  unfolding parent
  parent-sibling layer index h = elim (Bool-cases (index % 2 == 0)) [
    | inl e ↦
        let here : index ≡ index / 2 * 2 = ground arith in
        let beside : sibling layer index ≡ get_or layer (index / 2 * 2 + 1) zero_hash =
          sibling-get_or layer index
          ∙ ap (λ i. get_or layer i zero_hash) (rw e (ap (λ i. i + 1) here)) in
        rw e (
          ap₂ (hash_pair sha256) (ap (λ i. get_or layer i zero_hash) here) beside
          ∙ sym (get_or-pairs layer (index / 2) (omega arith)))
    | inr e ↦
        let here : index ≡ index / 2 * 2 + 1 = ground arith in
        let before : index - 1 ≡ index / 2 * 2 = omega (arith, here) in
        let beside : sibling layer index ≡ get_or layer (index / 2 * 2) zero_hash =
          sibling-get_or layer index ∙ ap (λ i. get_or layer i zero_hash) (rw e before) in
        rw e (
          ap₂ (hash_pair sha256) beside (ap (λ i. get_or layer i zero_hash) here)
          ∙ sym (get_or-pairs layer (index / 2) (omega (arith, here))))
  ]

  pub siblings-layers_from :
      (layer next : List Bytes) (fuel index : ℕ)
      → siblings index (layer ∷ layers_from sha256 fuel next)
        ≡ sibling layer index ∷ siblings (index / 2) (layers_from sha256 fuel next)
  unfolding siblings layers_from
  siblings-layers_from layer next zero index = refl
  siblings-layers_from layer next (suc fuel) index = elim (Bool-cases (ltb 1 (length next))) [
    | inl e ↦ rw e refl
    | inr e ↦ rw e refl
  ]

  pub last_layer-layers_from :
      (layer next : List Bytes) (fuel : ℕ)
      → last_layer (layer ∷ layers_from sha256 fuel next)
        ≡ last_layer (layers_from sha256 fuel next)
  unfolding last_layer layers_from
  last_layer-layers_from layer next zero = refl
  last_layer-layers_from layer next (suc fuel) = elim (Bool-cases (ltb 1 (length next))) [
    | inl e ↦ rw e refl
    | inr e ↦ rw e refl
  ]

  -- As many rounds as the layer has nodes, less one, lead to a single node.
  pub climb-siblings :
      (fuel : ℕ) (layer : List Bytes) (index : ℕ)
      → index < length layer
      → length layer ≤ suc fuel
      → climb sha256 index
          (get_or layer index zero_hash)
          (siblings index (layers_from sha256 fuel layer))
        ≡ get_or (last_layer (layers_from sha256 fuel layer)) 0 zero_hash
  unfolding climb siblings last_layer layers_from
  climb-siblings zero layer index h small = let e : index ≡ 0 = omega arith in rw e refl
  climb-siblings (suc fuel) layer index h small = elim (Bool-cases (ltb 1 (length layer))) [
    | inl e ↦
        let above = pairs sha256 layer in
        let rest = siblings (index / 2) (layers_from sha256 fuel above) in
        rw (e, siblings-layers_from layer above fuel index, last_layer-layers_from layer above fuel)
          (ap (λ c. climb sha256 (index / 2) c rest) (parent-sibling layer index h)
            ∙ climb-siblings fuel above (index / 2) (ground (arith, length-pairs layer))
                (ground (arith, length-pairs layer)))
    | inr e ↦ let z : index ≡ 0 = ground arith in rw (e, z) refl
  ]

  -- The proof that the tree gives for a leaf passes.
  pub verify_proof-generate_proof :
      (leaves : List Bytes) (index : ℕ)
      → index < length leaves
      → verify_proof sha256
          (from_leaves sha256 leaves)
          index
          (get_or leaves index zero_hash)
          (generate_proof (from_leaves sha256 leaves) index)
        ≡ true
  unfolding verify_proof from_leaves generate_proof root
  verify_proof-generate_proof leaves index h =
      let some : (length leaves == 0) ≡ false = ground arith in
      rw (some, climb-siblings (length leaves) leaves index h (omega arith))
        (same_bytes_refl
          (get_or (last_layer (layers_from sha256 (length leaves) leaves)) 0 zero_hash))
