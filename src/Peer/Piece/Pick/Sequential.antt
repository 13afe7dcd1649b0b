-- ===== src/Peer/Piece/Pick/Sequential.antt =====
-- src-tauri/crates/oxidebt-peer/src/piece.rs: what the piece picked in order is.
use rbitt.Prelude.{
  ℕ, zero, suc, ◌+◌, ◌≤◌, ◌<◌, ◌≡◌, ap, ◌∙◌, sym, inl, inr, ◌⊎◌, Bool, true, false, Bool-cases,
  Option-cases, not, ◌&&◌, Option, none, some, Bytes, arith,
}
use rbitt.Peer.Bitfield.{Bitfield, has_piece}
use rbitt.Peer.Piece.Manager.{PieceManager}
use rbitt.Peer.Piece.Pick.{
  is_fresh, can_help, or_else, not_skipped, first_index, pick_piece_sequential_with_priorities,
}

first_index-some :
    (test : ℕ → Bool) (n i : ℕ) {j : ℕ}
    → first_index test n i ≡ some j
    → (j < i + n) × (test j ≡ true) × ((k : ℕ) → i ≤ k → k < j → test k ≡ false)
unfolding first_index
first_index-some test zero i h = cc
first_index-some test (suc n) i {j} h = elim (Bool-cases (test i)) [
  | inl hit ↦
      let e : i ≡ j = ground (arith, hit) in
      (omega arith, sym (ap test e) ∙ hit, λ k lo hi. absurd (omega arith))
  | inr miss ↦
      let (small, passes, lower) = first_index-some test n (i + 1) {j = j} (ground (arith, miss)) in
      (omega arith, passes, λ k lo hi. ground (arith, lower k, λ (e : i ≡ k). ap test e))
]

first_index-none :
    (test : ℕ → Bool) (n i k : ℕ) → first_index test n i ≡ none → i ≤ k → k < i + n → test k ≡ false
unfolding first_index
first_index-none test zero i k h lo hi = absurd (omega arith)
first_index-none test (suc n) i k h lo hi =
    ground (arith, first_index-none test n (i + 1) k, λ (e : i ≡ k). ap test e)

-- A piece that nobody downloads, that we lack, that the peer has and that is not skipped.
abbrev pub is_needed : Option Bytes → PieceManager → Bitfield → ℕ → Bool
is_needed piece_priorities m peer_bitfield i =
    (not_skipped piece_priorities i && not (has_piece m.our_bitfield i))
    && is_fresh m peer_bitfield i

-- A piece that is downloaded and has room for a request, that we lack, that the peer has and that
-- is not skipped.
abbrev pub is_shared : Option Bytes → PieceManager → Bitfield → ℕ → Bool
is_shared piece_priorities m peer_bitfield i =
    (not_skipped piece_priorities i && not (has_piece m.our_bitfield i))
    && can_help m peer_bitfield i

-- The piece picked in order is below the piece count. Either it is needed, and no piece before it
-- is, or it is shared, no piece at all is needed, and no piece before it is shared.
pub pick_piece_sequential_lowest :
    (m : PieceManager) (peer_bitfield : Bitfield) (piece_priorities : Option Bytes) {i : ℕ}
    → pick_piece_sequential_with_priorities m peer_bitfield piece_priorities ≡ some i
    → (i < m.piece_count)
      × (((is_needed piece_priorities m peer_bitfield i ≡ true)
            × ((k : ℕ) → k < i → is_needed piece_priorities m peer_bitfield k ≡ false))
          ⊎ ((is_shared piece_priorities m peer_bitfield i ≡ true)
              × ((k : ℕ) → k < m.piece_count → is_needed piece_priorities m peer_bitfield k ≡ false)
              × ((k : ℕ) → k < i → is_shared piece_priorities m peer_bitfield k ≡ false)))
unfolding pick_piece_sequential_with_priorities
pick_piece_sequential_lowest m peer_bitfield piece_priorities {i} h =
    let needed = first_index (is_needed piece_priorities m peer_bitfield) m.piece_count 0 in
    let shared = first_index (is_shared piece_priorities m peer_bitfield) m.piece_count 0 in
    elim (Option-cases needed) [
      | inl nobody ↦
          let (small, passes, lower) =
            first_index-some _ m.piece_count 0 {j = i}
              (ap (λ o. or_else o shared) (sym nobody) ∙ h) in
          (
            omega arith,
            inr (
              passes,
              λ k lt. first_index-none _ m.piece_count 0 k nobody (omega arith) (omega arith),
              λ k lt. lower k (omega arith) lt,
            ),
          )
      | inr (j, found) ↦
          let here : needed ≡ some i = found ∙ ap (λ o. or_else o shared) (sym found) ∙ h in
          let (small, passes, lower) = first_index-some _ m.piece_count 0 {j = i} here in
          (omega arith, inl (passes, λ k lt. lower k (omega arith) lt))
    ]
