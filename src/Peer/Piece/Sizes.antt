-- ===== src/Peer/Piece/Sizes.antt =====
-- src-tauri/crates/oxidebt-peer/src/piece.rs, `PieceManager::piece_size`.
use rbitt.Prelude.{
  ℕ, zero, suc, ◌+◌, ◌-◌, ◌*◌, ◌%◌, ◌≤◌, ◌<◌, ◌≡◌, arith, ap, ◌∙◌, inl, inr, Bool-cases, ltb, ◌==◌,
  if◌then◌else◌,
}
use native.Mathlib.Nat.{mod-eq_of_lt, mod_self, add-mod_left}
use rbitt.Peer.Piece.Manager.{PieceManager, piece_size}

-- The sizes of the first `n` pieces together.
unfoldable pub sizes_below : ℕ → PieceManager → ℕ
sizes_below zero m = 0
sizes_below (suc n) m = sizes_below n m + piece_size m n

sizes_before_last :
    (n : ℕ) (m : PieceManager) → n < m.piece_count → sizes_below n m ≡ n * m.piece_length
unfolding sizes_below piece_size
sizes_before_last zero m h = omega arith
sizes_before_last (suc n) m h =
    let e : suc n * m.piece_length ≡ n * m.piece_length + m.piece_length = omega arith in
    ground (arith, e, sizes_before_last n m)

skip_multiples : (k len r : ℕ) → (k * len + r) % len ≡ r % len
skip_multiples zero len r = ap (λ t. t % len) (omega arith)
skip_multiples (suc k) len r =
    let e : suc k * len + r ≡ len + (k * len + r) = omega arith in
    rw e (add-mod_left len (k * len + r) ∙ skip_multiples k len r)

last_size :
    (k len total : ℕ)
    → k * len < total
    → total ≤ k * len + len
    → k * len + (if total % len == 0 then len else total % len) ≡ total
last_size k len total lo hi =
    let rest = total - k * len in
    let e : total % len ≡ rest % len =
      ap (λ t. t % len) (omega arith) ∙ skip_multiples k len rest in
    elim (Bool-cases (ltb rest len)) [
      | inl h ↦ let small : rest < len = ground (arith, h) in ground (arith, e, mod-eq_of_lt small)
      | inr h ↦
          let whole : rest ≡ len = ground (arith, h) in
          ground (arith, e, ap (λ r. r % len) whole, mod_self len)
    ]

-- If there are as many pieces as the total length needs, then their sizes add up to it.
pub sizes_add_up :
    (m : PieceManager) (k : ℕ)
    → m.piece_count ≡ suc k
    → k * m.piece_length < m.total_length
    → m.total_length ≤ k * m.piece_length + m.piece_length
    → sizes_below m.piece_count m ≡ m.total_length
unfolding sizes_below piece_size
sizes_add_up m k e lo hi =
    rw (e, sizes_below)
      (ground (arith, e, sizes_before_last k m, last_size k m.piece_length m.total_length lo hi))
