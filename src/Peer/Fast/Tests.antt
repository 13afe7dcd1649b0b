-- ===== src/Peer/Fast/Tests.antt =====
-- Runs of the fast extension on concrete inputs, and its theorem at such an input.
use rbitt.Prelude.{ℕ, ◌≤◌, ◌<◌, ◌≡◌, refl, min, [], ◌∷◌, Bytes, length, replicate, All, take, arith}
use rbitt.Peer.Fast.{IpAddr, v4, generate_allowed_fast_set}
use rbitt.Peer.Fast.Bounds.{generate_allowed_fast_set-bounds}

-- In the place of the hash function: 20 of the bytes, without the first.
abbrev shift : Bytes → Bytes
shift [] = replicate 20 0
shift (b ∷ bs) = take 20 bs

abbrev an_address : IpAddr
an_address = v4 (80 ∷ 4 ∷ 4 ∷ 200 ∷ [])

two_allowed :
    generate_allowed_fast_set shift an_address (replicate 20 0xaa) 1313 2 ≡ 1223 ∷ 1148 ∷ []
unfolding generate_allowed_fast_set rbitt.Peer.Fast.add_hashes rbitt.Peer.Fast.add_chunks
two_allowed = refl

generate_allowed_fast_set-bounds_example :
    (length (generate_allowed_fast_set shift an_address (replicate 20 0xaa) 1313 7) ≤ min 7 1313)
    × All
        (λ (i : ℕ). i < 1313)
        (generate_allowed_fast_set shift an_address (replicate 20 0xaa) 1313 7)
generate_allowed_fast_set-bounds_example =
    generate_allowed_fast_set-bounds shift an_address (replicate 20 0xaa) 1313 7 (omega arith)
