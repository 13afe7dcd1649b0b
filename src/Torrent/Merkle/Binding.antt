-- ===== src/Torrent/Merkle/Binding.antt =====
-- What a proof that passes says: it is for the leaf that the tree has there, or two inputs with one
-- hash are found.
use rbitt.Prelude.{
  ℕ, zero, suc, ◌+◌, ◌-◌, ◌/◌, ◌%◌, ◌≤◌, ◌<◌, ◌≡◌, ◌≢◌, ◌⊎◌, subst, refl, sym, ap, ◌∙◌, inl, inr,
  true, false, Bool-cases, List, [], ◌∷◌, ◌++◌, Bytes, ltb, ◌==◌, if◌then◌else◌, length, get_or,
  All, All-get_or, take, drop, take_prefix, drop_prefix, arith,
}
use rbitt.Prelude.Same.{same_bytes, eq-of-same_bytes, same_bytes_refl}
use rbitt.Torrent.Merkle.{
  zero_hash, last_layer, root, depth, sibling, hash_pair, pairs, layers_from, from_leaves, parent,
  climb, verify_proof,
}
use rbitt.Torrent.Merkle.Layers.{
  length-pairs, parent-sibling, sibling-get_or, last_layer-layers_from,
}

-- Two inputs that differ and have one hash.
abbrev pub Collision : (Bytes → Bytes) → Type 0
Collision sha256 = (x : Bytes) × (y : Bytes) × (x ≢ y) × (sha256 x ≡ sha256 y)

-- `[u8; 32]`
abbrev pub IsHash : Bytes → Type 0
IsHash h = length h ≡ 32

module _ (sha256 : Bytes → Bytes) (size : (bytes : Bytes) → IsHash (sha256 bytes)) where
  eq-or-Collision : (x y : Bytes) → sha256 x ≡ sha256 y → (x ≡ y) ⊎ Collision sha256
  eq-or-Collision x y e = elim (Bool-cases (same_bytes x y)) [
    | inl s ↦ inl (eq-of-same_bytes x y s)
    | inr s ↦
        let differ : x ≢ y = λ (d : x ≡ y).
          (let t : same_bytes x y ≡ true =
              subst (λ z. same_bytes x z ≡ true) d (same_bytes_refl x) in
            cc) in
        inr (x, y, differ, e)
  ]

  -- The left one of the two hashes that are hashed together, and the right one.
  hash_pair-injective :
      (a b c d : Bytes)
      → IsHash a
      → IsHash c
      → hash_pair sha256 a b ≡ hash_pair sha256 c d
      → ((a ≡ c) × (b ≡ d)) ⊎ Collision sha256
  unfolding hash_pair
  hash_pair-injective a b c d ha hc e = elim (eq-or-Collision (1 ∷ (a ++ b)) (1 ∷ (c ++ d)) e) [
    | inl same ↦
        let tails : a ++ b ≡ c ++ d = ap (drop 1) same in
        inl (
          sym (take_prefix 32 a b ha) ∙ ap (take 32) tails ∙ take_prefix 32 c d hc,
          sym (drop_prefix 32 a b ha) ∙ ap (drop 32) tails ∙ drop_prefix 32 c d hc,
        )
    | inr found ↦ inr found
  ]

  parent-injective :
      (index : ℕ) (a b c d : Bytes)
      → IsHash a
      → IsHash b
      → IsHash c
      → IsHash d
      → parent sha256 index a b ≡ parent sha256 index c d
      → (a ≡ c) ⊎ Collision sha256
  unfolding parent
  parent-injective index a b c d ha hb hc hd e = elim (Bool-cases (index % 2 == 0)) [
    | inl even ↦
        let f : hash_pair sha256 a b ≡ hash_pair sha256 c d = rw even at e in
        elim (hash_pair-injective a b c d ha hc f) [ inl s ↦ inl s.0 | inr found ↦ inr found ]
    | inr odd ↦
        let f : hash_pair sha256 b a ≡ hash_pair sha256 d c = rw odd at e in
        elim (hash_pair-injective b a d c hb hd f) [ inl s ↦ inl s.1 | inr found ↦ inr found ]
  ]

  pairs-IsHash : (layer : List Bytes) → All IsHash (pairs sha256 layer)
  unfolding pairs hash_pair
  pairs-IsHash [] = tt
  pairs-IsHash (a ∷ []) = (size _, tt)
  pairs-IsHash (a ∷ b ∷ rest) = (size _, pairs-IsHash rest)

  node-IsHash : (layer : List Bytes) (i : ℕ) → All IsHash layer → IsHash (get_or layer i zero_hash)
  node-IsHash layer i all = All-get_or IsHash layer i zero_hash refl all

  parent-IsHash : (index : ℕ) (a b : Bytes) → IsHash (parent sha256 index a b)
  unfolding parent hash_pair
  parent-IsHash index a b = elim (Bool-cases (index % 2 == 0)) [
    | inl e ↦ rw e (size _)
    | inr e ↦ rw e (size _)
  ]

  layers_from-nonempty :
      (fuel : ℕ) (layer : List Bytes) → 0 < length (layers_from sha256 fuel layer)
  unfolding layers_from
  layers_from-nonempty zero layer = omega arith
  layers_from-nonempty (suc fuel) layer = elim (Bool-cases (ltb 1 (length layer))) [
    | inl e ↦ rw e (omega arith)
    | inr e ↦ rw e (omega arith)
  ]

  -- Where one layer is left, the proof is empty and the leaf is the root.
  alone :
      (layer : List Bytes) (index : ℕ) (leaf : Bytes) (proof : List Bytes)
      → index < length layer
      → length layer ≤ 1
      → suc (length proof) ≡ 1
      → climb sha256 index leaf proof ≡ get_or layer 0 zero_hash
      → leaf ≡ get_or layer index zero_hash
  unfolding climb
  alone layer index leaf [] h small n e =
      let z : 0 ≡ index = omega arith in subst (λ i. leaf ≡ get_or layer i zero_hash) z e
  alone layer index leaf (s ∷ proof) h small n e = absurd (omega arith)

  -- One layer up, where the claim holds for the layer above.
  goes_up :
      (fuel : ℕ) (layer : List Bytes) (index : ℕ) (leaf : Bytes) (proof : List Bytes)
      → index < length layer
      → 1 < length layer
      → length layer ≤ suc (suc fuel)
      → All IsHash layer
      → IsHash leaf
      → All IsHash proof
      → suc (length proof) ≡ suc (length (layers_from sha256 fuel (pairs sha256 layer)))
      → climb sha256 index leaf proof
        ≡ get_or (last_layer (layers_from sha256 fuel (pairs sha256 layer))) 0 zero_hash
      → ((above : List Bytes) (index : ℕ) (leaf : Bytes) (proof : List Bytes)
          → index < length above
          → length above ≤ suc fuel
          → All IsHash above
          → IsHash leaf
          → All IsHash proof
          → suc (length proof) ≡ length (layers_from sha256 fuel above)
          → climb sha256 index leaf proof
            ≡ get_or (last_layer (layers_from sha256 fuel above)) 0 zero_hash
          → (leaf ≡ get_or above index zero_hash) ⊎ Collision sha256)
      → (leaf ≡ get_or layer index zero_hash) ⊎ Collision sha256
  unfolding climb sibling
  goes_up fuel layer index leaf [] h many small all hl hp n e above_holds =
      absurd (omega (arith, layers_from-nonempty fuel (pairs sha256 layer), n))
  goes_up fuel layer index leaf (s ∷ proof) h many small all hl hp n e above_holds =
      let above = pairs sha256 layer in
      let node = get_or layer index zero_hash in
      elim (above_holds above (index / 2) (parent sha256 index leaf s) proof
        (omega (arith, length-pairs sha256 layer)) (omega (arith, length-pairs sha256 layer))
        (pairs-IsHash layer) (parent-IsHash index leaf s) hp.1 (omega (arith, n)) e) [
          | inl same ↦
              parent-injective index leaf s node (sibling layer index) hl hp.0
                (node-IsHash layer index all)
                (rw (sibling-get_or layer index)
                  (node-IsHash layer (if index % 2 == 0 then index + 1 else index - 1) all))
                (same ∙ sym (parent-sibling sha256 layer index h))
          | inr found ↦ inr found
        ]

  climb-binding :
      (fuel : ℕ) (layer : List Bytes) (index : ℕ) (leaf : Bytes) (proof : List Bytes)
      → index < length layer
      → length layer ≤ suc fuel
      → All IsHash layer
      → IsHash leaf
      → All IsHash proof
      → suc (length proof) ≡ length (layers_from sha256 fuel layer)
      → climb sha256 index leaf proof
        ≡ get_or (last_layer (layers_from sha256 fuel layer)) 0 zero_hash
      → (leaf ≡ get_or layer index zero_hash) ⊎ Collision sha256
  unfolding layers_from last_layer
  climb-binding zero layer index leaf proof h small all hl hp n e =
      inl (alone layer index leaf proof h small n e)
  climb-binding (suc fuel) layer index leaf proof h small all hl hp n e =
      elim (Bool-cases (ltb 1 (length layer))) [
        | inl many ↦
            goes_up fuel layer index leaf proof h (ground arith) (ground arith) all hl hp
              (rw many at n)
              (rw (many, last_layer-layers_from sha256 layer (pairs sha256 layer) fuel) at e)
              (climb-binding fuel)
        | inr few ↦ inl (alone layer index leaf proof h (ground arith) (rw few at n) (rw few at e))
      ]

  -- A proof of the tree's depth that passes for a leaf is for the leaf that the tree has at `index`,
  -- or it gives two inputs that the hash function takes to one hash.
  pub verify_proof-binding :
      (leaves : List Bytes) (index : ℕ) (leaf : Bytes) (proof : List Bytes)
      → index < length leaves
      → All IsHash leaves
      → IsHash leaf
      → All IsHash proof
      → suc (length proof) ≡ depth (from_leaves sha256 leaves)
      → verify_proof sha256 (from_leaves sha256 leaves) index leaf proof ≡ true
      → (leaf ≡ get_or leaves index zero_hash) ⊎ Collision sha256
  unfolding verify_proof from_leaves depth root
  verify_proof-binding leaves index leaf proof h all hl hp n e =
      let some : (length leaves == 0) ≡ false = ground arith in
      let passed : climb sha256 index leaf proof
          ≡ get_or (last_layer (layers_from sha256 (length leaves) leaves)) 0 zero_hash =
        eq-of-same_bytes _ _ (rw some at e) in
      climb-binding (length leaves) leaves index leaf proof h (omega arith) all hl hp (rw some at n)
        passed
