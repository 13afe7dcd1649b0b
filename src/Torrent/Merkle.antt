-- ===== src/Torrent/Merkle.antt =====
-- src-tauri/crates/oxidebt-torrent/src/merkle.rs: the tree of hashes over the blocks of a piece. The
-- hash function of the `sha2` crate is the parameter `sha256`; a hash is 32 bytes.
pub mod Layers
pub mod Binding
pub mod Blocks
mod Tests
use rbitt.Prelude.{
  ℕ, zero, suc, ◌+◌, ◌-◌, ◌*◌, ◌/◌, ◌%◌, Bool, List, [], ◌∷◌, ◌++◌, Bytes, ltb, leb, ◌==◌,
  if◌then◌else◌, length, get_or, take, drop, replicate, min,
}
use rbitt.Prelude.Same.{same_bytes}

abbrev pub block_size : ℕ
block_size = 16384

-- `[0u8; 32]`
abbrev pub zero_hash : Bytes
zero_hash = replicate 32 0

-- The layers from the leaves to the root.
pub record MerkleTree : Type 0 where
  pub layers : List (List Bytes)

-- `n.div_ceil(d)`
abbrev pub div_ceil : ℕ → ℕ → ℕ
div_ceil n d = (n + (d - 1)) / d

-- `next_power_of_two`: the first power from `p` on that is not below `n`.
unfoldable pub power_from : ℕ → ℕ → ℕ → ℕ
power_from zero p n = p
power_from (suc fuel) p n = let next = power_from fuel (p * 2) n in if leb n p then p else next

abbrev pub next_power_of_two : ℕ → ℕ
next_power_of_two n = power_from n 1 n

unfoldable pub last_layer : List (List Bytes) → List Bytes
last_layer [] = []
last_layer (layer ∷ []) = layer
last_layer (layer ∷ rest ∷ more) = last_layer (rest ∷ more)

unfoldable pub root : MerkleTree → Bytes
unfolding last_layer
root t = get_or (last_layer t.layers) 0 zero_hash

-- What the loop of `generate_proof` takes from a layer: the node beside the one at `index`.
unfoldable pub sibling : List Bytes → ℕ → Bytes
sibling layer index =
    let sibling_index = if index % 2 == 0 then index + 1 else index - 1 in
    if ltb sibling_index (length layer) then get_or layer sibling_index zero_hash else zero_hash

-- The loop of `generate_proof`, over every layer but the last.
unfoldable pub siblings : ℕ → List (List Bytes) → List Bytes
unfolding sibling
siblings index [] = []
siblings index (layer ∷ []) = []
siblings index (layer ∷ next ∷ more) = sibling layer index ∷ siblings (index / 2) (next ∷ more)

unfoldable pub generate_proof : MerkleTree → ℕ → List Bytes
unfolding siblings
generate_proof t index = siblings index t.layers

unfoldable pub depth : MerkleTree → ℕ
depth t = length t.layers

-- `&piece[start..end]` of the block `i`
abbrev pub block_at : Bytes → ℕ → Bytes
block_at piece i =
    let start = i * block_size in
    let end = min (start + block_size) (length piece) in take (end - start) (drop start piece)

module _ (sha256 : Bytes → Bytes) where
  unfoldable pub hash_leaf : Bytes → Bytes
  hash_leaf block = sha256 (0x00 ∷ block)

  unfoldable pub hash_pair : Bytes → Bytes → Bytes
  hash_pair left right = sha256 (0x01 ∷ (left ++ right))

  -- The next layer: `chunks(2)`, and a last chunk of one with zeros.
  unfoldable pub pairs : List Bytes → List Bytes
  pairs [] = []
  pairs (a ∷ []) = hash_pair a zero_hash ∷ []
  pairs (a ∷ b ∷ rest) = hash_pair a b ∷ pairs rest

  -- The loop of `from_leaves`, with `layer` the last layer.
  unfoldable pub layers_from : ℕ → List Bytes → List (List Bytes)
  unfolding pairs
  layers_from zero layer = layer ∷ []
  layers_from (suc fuel) layer =
      let rest = layers_from fuel (pairs layer) in
      if ltb 1 (length layer) then layer ∷ rest else layer ∷ []

  unfoldable pub from_leaves : List Bytes → MerkleTree
  unfolding layers_from
  from_leaves leaves =
      if length leaves == 0
      then record { layers = (zero_hash ∷ []) ∷ [] }
      else record { layers = layers_from (length leaves) leaves }

  -- The loop of `from_piece_data`, from the leaf `i` on, with `n` leaves to come.
  unfoldable pub leaves_from : Bytes → ℕ → ℕ → List Bytes
  unfolding hash_leaf
  leaves_from piece i zero = []
  leaves_from piece i (suc n) =
      (if ltb i (div_ceil (length piece) block_size)
        then hash_leaf (block_at piece i)
        else zero_hash)
      ∷ leaves_from piece (suc i) n

  unfoldable pub from_piece_data : Bytes → MerkleTree
  unfolding leaves_from from_leaves
  from_piece_data piece =
      from_leaves (leaves_from piece 0 (next_power_of_two (div_ceil (length piece) block_size)))

  -- One round of the loop of `verify_proof`.
  unfoldable pub parent : ℕ → Bytes → Bytes → Bytes
  unfolding hash_pair
  parent index current sibling =
      if index % 2 == 0 then hash_pair current sibling else hash_pair sibling current

  -- The loop of `verify_proof`: the hash that the proof leads to.
  unfoldable pub climb : ℕ → Bytes → List Bytes → Bytes
  unfolding parent
  climb index current [] = current
  climb index current (sibling ∷ proof) = climb (index / 2) (parent index current sibling) proof

  -- No branch gives an error: the result is the Boolean of the source's `Ok`.
  unfoldable pub verify_proof : MerkleTree → ℕ → Bytes → List Bytes → Bool
  unfolding climb root
  verify_proof t index leaf_hash proof = same_bytes (climb index leaf_hash proof) (root t)

  unfoldable pub verify_block : MerkleTree → ℕ → Bytes → List Bytes → Bool
  unfolding verify_proof hash_leaf
  verify_block t block_index block_data proof =
      verify_proof t block_index (hash_leaf block_data) proof
