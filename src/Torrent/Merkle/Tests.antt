-- ===== src/Torrent/Merkle/Tests.antt =====
-- Runs of the tree on concrete leaves, and its theorems applied to them.
use rbitt.Prelude.{
  ℕ, suc, ◌+◌, ◌<◌, ◌≡◌, ◌⊎◌, refl, true, false, Bytes, List, [], ◌∷◌, ◌++◌, length, length-append,
  length-take, length-replicate, replicate, take, get_or, All, ◌∙◌, arith,
}
use rbitt.Torrent.Merkle.{
  zero_hash, depth, root, from_leaves, from_piece_data, block_at, generate_proof, verify_proof,
  verify_block,
}
use rbitt.Torrent.Merkle.Blocks.{verify_block-generate_proof}
use rbitt.Torrent.Merkle.Binding.{Collision, IsHash, verify_proof-binding}

-- In the place of the hash function: the first 32 bytes, filled up with zeros.
abbrev cut : Bytes → Bytes
cut bytes = take 32 (bytes ++ replicate 32 0)

cut-IsHash : (bytes : Bytes) → IsHash (cut bytes)
cut-IsHash bytes =
    length-take 32 (bytes ++ replicate 32 0) ∙ omega (arith, length-append bytes (replicate 32 0))

abbrev leaf : ℕ → Bytes
leaf n = replicate 32 n

abbrev three : List Bytes
three = leaf 1 ∷ leaf 2 ∷ leaf 3 ∷ []

three_layers : depth (from_leaves cut three) ≡ 3
unfolding depth from_leaves
three_layers = refl

third_proof : generate_proof (from_leaves cut three) 2 ≡ zero_hash ∷ (0x01 ∷ replicate 31 1) ∷ []
unfolding generate_proof from_leaves rbitt.Torrent.Merkle.hash_pair
third_proof = refl

wrong_place :
    verify_proof cut (from_leaves cut three) 0 (leaf 2) (generate_proof (from_leaves cut three) 0)
    ≡ false
unfolding verify_proof rbitt.Prelude.Same.same_bytes generate_proof from_leaves
wrong_place = refl

verify_block-generate_proof_example :
    verify_block cut
      (from_piece_data cut (7 ∷ 8 ∷ 9 ∷ []))
      0
      (block_at (7 ∷ 8 ∷ 9 ∷ []) 0)
      (generate_proof (from_piece_data cut (7 ∷ 8 ∷ 9 ∷ [])) 0)
    ≡ true
verify_block-generate_proof_example =
    verify_block-generate_proof cut (7 ∷ 8 ∷ 9 ∷ []) 0 (omega arith)

third_proof_sizes : All IsHash (generate_proof (from_leaves cut three) 2)
unfolding generate_proof from_leaves rbitt.Torrent.Merkle.hash_pair
third_proof_sizes = (refl, (refl, tt))

verify_proof-binding_example : (leaf 3 ≡ get_or three 2 zero_hash) ⊎ Collision cut
unfolding depth from_leaves generate_proof verify_proof rbitt.Prelude.Same.same_bytes
verify_proof-binding_example =
    verify_proof-binding cut cut-IsHash three 2 (leaf 3) (generate_proof (from_leaves cut three) 2)
      (omega arith) (refl, (refl, (refl, tt))) refl third_proof_sizes refl refl
