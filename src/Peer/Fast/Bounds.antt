-- ===== src/Peer/Fast/Bounds.antt =====
-- src-tauri/crates/oxidebt-peer/src/fast.rs: the size of the allowed fast set and its pieces.
use rbitt.Prelude.{
  ℕ, zero, suc, ◌*◌, ◌%◌, ◌^◌, ◌≤◌, ◌<◌, ◌≡◌, min, Bool-cases, inl, inr, List, [], ◌∷◌, ◌++◌, Bytes,
  leb, ◌==◌, length, All, contains, arith,
}
use native.Mathlib.Nat.{mod-lt}
use rbitt.Prelude.Maps.{set_insert}
use rbitt.Peer.Fast.{IpAddr, add_chunks, add_hashes, generate_allowed_fast_set, masked}

-- At most `target` pieces, each below the piece count.
record Fits (target piece_count : ℕ) (s : List ℕ) : Type 0 where
  size : length s ≤ target
  below : All (λ (i : ℕ). i < piece_count) s

set_insert-Fits :
    (target piece_count i : ℕ) (s : List ℕ)
    → length s < target
    → i < piece_count
    → Fits target piece_count s
    → Fits target piece_count (set_insert i s)
set_insert-Fits target piece_count i s room small f = elim (Bool-cases (contains i s)) [
  | inl t ↦ rw t f
  | inr n ↦ rw n (record { size = room; below = (small, f.below) })
]

module _ (target piece_count : ℕ) (some_pieces : 0 < piece_count)
    (machine : piece_count < 2 ^ 32) where
  index-lt : (n : ℕ) → n % (piece_count % 2 ^ 32) < piece_count
  index-lt n =
      let e : piece_count % 2 ^ 32 ≡ piece_count = omega arith in rw e (mod-lt n some_pieces)

  add_chunks-Fits :
      (x : Bytes) (s : List ℕ)
      → Fits target piece_count s
      → Fits target piece_count (add_chunks target piece_count x s)
  unfolding add_chunks
  add_chunks-Fits (a ∷ b ∷ c ∷ d ∷ rest) s f = elim (Bool-cases (leb target (length s))) [
    | inl full ↦ rw full f
    | inr room ↦ rw room (
        add_chunks-Fits rest _
          (set_insert-Fits target piece_count _ s (ground (arith, room)) (index-lt _) f))
  ]
  add_chunks-Fits [] s f = f
  add_chunks-Fits (a ∷ []) s f = f
  add_chunks-Fits (a ∷ b ∷ []) s f = f
  add_chunks-Fits (a ∷ b ∷ c ∷ []) s f = f

  add_hashes-Fits :
      (sha1 : Bytes → Bytes) (iterations : ℕ) (x : Bytes) (s : List ℕ)
      → Fits target piece_count s
      → Fits target piece_count (add_hashes sha1 iterations target piece_count x s)
  unfolding add_hashes
  add_hashes-Fits sha1 zero x s f = f
  add_hashes-Fits sha1 (suc iterations) x s f = elim (Bool-cases (leb target (length s))) [
    | inl full ↦ rw full f
    | inr room ↦ rw room (add_hashes-Fits sha1 iterations (sha1 x) _ (add_chunks-Fits (sha1 x) s f))
  ]

-- Whatever the hash function, the allowed fast set of a torrent with fewer than 2^32 pieces has at
-- most as many pieces as asked for and as the torrent has, and each is a piece of the torrent.
pub generate_allowed_fast_set-bounds :
    (sha1 : Bytes → Bytes) (peer_ip : IpAddr) (info_hash : Bytes) (piece_count count : ℕ)
    → piece_count < 2 ^ 32
    → (length (generate_allowed_fast_set sha1 peer_ip info_hash piece_count count)
        ≤ min count piece_count)
      × All
          (λ (i : ℕ). i < piece_count)
          (generate_allowed_fast_set sha1 peer_ip info_hash piece_count count)
unfolding generate_allowed_fast_set
generate_allowed_fast_set-bounds sha1 peer_ip info_hash piece_count count machine =
    elim (Bool-cases (piece_count == 0)) [
      | inl t ↦ rw t (omega arith, tt)
      | inr n ↦
          let target = min count piece_count in
          let f =
            add_hashes-Fits target piece_count (ground (arith, n)) machine sha1 (target * 10)
              (masked peer_ip ++ info_hash) [] (record { size = omega arith; below = tt }) in
          rw n (f.size, f.below)
    ]
