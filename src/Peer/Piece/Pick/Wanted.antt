-- ===== src/Peer/Piece/Pick/Wanted.antt =====
-- src-tauri/crates/oxidebt-peer/src/piece.rs: the picked piece is one to ask the peer for.
use rbitt.Prelude.{
  ℕ, zero, suc, ◌≡◌, ap, ◌∙◌, sym, inl, inr, ◌⊎◌, Bool, true, false, Bool-cases, Option-cases,
  subst, not, ◌&&◌, Option, some, List, [], ◌∷◌, Bytes, ltb, ◌==◌, length, take, contains, arith,
}
use rbitt.Prelude.Maps.{lookup, has_key}
use rbitt.Peer.Bitfield.{Bitfield, has_piece}
use rbitt.Peer.Piece.{Candidates}
use rbitt.Peer.Piece.Candidates.{member}
use rbitt.Peer.Piece.Manager.{PieceManager, have_count}
use rbitt.Peer.Piece.Synced.{IsSynced}
use rbitt.Peer.Piece.Pick.{
  cold_start_threshold, is_fresh, can_help, passing, first?, or_else, choose, not_skipped,
  state_has_room, random_pool_size, pick_piece_with_priorities,
}

-- A candidate that passes the test.
record Passes (test : ℕ → Bool) (ps : Candidates) (i : ℕ) : Type 0 where
  availability : ℕ
  there : member (record { availability = availability; piece_index = i }) ps ≡ true
  passes : test i ≡ true

passing-Passes :
    (test : ℕ → Bool) (ps : Candidates) (i : ℕ)
    → contains i (passing test ps) ≡ true
    → Passes test ps i
unfolding passing
passing-Passes test [] i h = cc
passing-Passes test (p ∷ ps) i h = elim (Bool-cases (test p.piece_index && p.piece_index == i)) [
  | inl t ↦
      let e : p.piece_index ≡ i = ground arith in
      record {
        availability = p.availability;
        there = ground arith;
        passes = subst (λ x. test x ≡ true) e (ground arith);
      }
  | inr f ↦
      let r = passing-Passes test ps i (ground arith) in
      record { availability = r.availability; there = ground (arith, r.there); passes = r.passes }
]

contains-take : (n i : ℕ) (xs : List ℕ) → contains i (take n xs) ≡ true → contains i xs ≡ true
contains-take zero i xs h = cc
contains-take (suc n) i [] h = cc
contains-take (suc n) i (x ∷ xs) h = ground (arith, contains-take n i xs)

contains-first : (xs : List ℕ) {i : ℕ} → first? xs ≡ some i → contains i xs ≡ true
contains-first [] h = cc
contains-first (x ∷ xs) h = ground arith

module _ (shuffle : List ℕ → List ℕ)
    (keeps : (xs : List ℕ) (j : ℕ) → contains j (shuffle xs) ≡ contains j xs) (allowed : ℕ → Bool)
    (m : PieceManager) (peer_bitfield : Bitfield) where
  abbrev fresh : ℕ → Bool
  fresh i = allowed i && is_fresh m peer_bitfield i

  abbrev helped : ℕ → Bool
  helped i = allowed i && can_help m peer_bitfield i

  abbrev listed : (ℕ → Bool) → List ℕ
  listed test = passing test m.downloadable.candidates

  abbrev is_cold : Bool
  is_cold =
      ltb (have_count m) cold_start_threshold
      && not (length (take random_pool_size (listed fresh)) == 0)

  -- A choice passes one of the two tests.
  choose-listed :
      {i : ℕ}
      → choose shuffle allowed m peer_bitfield ≡ some i
      → (contains i (listed fresh) ≡ true) ⊎ (contains i (listed helped) ≡ true)
  unfolding choose
  choose-listed {i} h =
      let pool = take random_pool_size (listed fresh) in
      elim (Bool-cases is_cold) [
        | inl cold ↦
            let from_pool : first? (shuffle pool) ≡ some i = ground (arith, cold) in
            inl (
              contains-take random_pool_size i (listed fresh)
                (sym (keeps pool i) ∙ contains-first (shuffle pool) from_pool))
        | inr warm ↦
            let normal : or_else (first? (listed fresh)) (first? (listed helped)) ≡ some i =
              ground (arith, warm) in
            elim (Option-cases (first? (listed fresh))) [
              | inl nobody ↦ inr (
                  contains-first (listed helped)
                    (ap (λ o. or_else o (first? (listed helped))) (sym nobody) ∙ normal))
              | inr (j, found) ↦ inl (
                  contains-first (listed fresh)
                    (found ∙ ap (λ o. or_else o (first? (listed helped))) (sym found) ∙ normal))
            ]
      ]

-- The piece is a candidate that is not skipped, that the peer has, and that nobody downloads or
-- that has room for one more request.
pub record IsWanted (piece_priorities : Option Bytes) (m : PieceManager) (peer_bitfield : Bitfield)
    (i : ℕ) : Type 0 where
  pub candidate : contains i m.downloadable.in_candidates ≡ true
  pub offered : has_piece peer_bitfield i ≡ true
  pub kept : not_skipped piece_priorities i ≡ true
  pub open_to :
      (has_key i m.active_pieces ≡ false) ⊎ (state_has_room m i (lookup i m.active_pieces) ≡ true)

-- If the candidates are in step and `shuffle` keeps what is in the list, then a piece that
-- `pick_piece_with_priorities` picks is a candidate that is not skipped, that the peer has, and that
-- nobody downloads or that has room for one more request.
pub pick_piece_with_priorities-IsWanted :
    (shuffle : List ℕ → List ℕ) (m : PieceManager) (peer_bitfield : Bitfield)
    (piece_priorities : Option Bytes) {i : ℕ}
    → ((xs : List ℕ) (j : ℕ) → contains j (shuffle xs) ≡ contains j xs)
    → IsSynced m
    → pick_piece_with_priorities shuffle m peer_bitfield piece_priorities ≡ some i
    → IsWanted piece_priorities m peer_bitfield i
unfolding pick_piece_with_priorities
pick_piece_with_priorities-IsWanted shuffle m peer_bitfield piece_priorities {i} keeps s h =
    elim (choose-listed shuffle keeps (not_skipped piece_priorities) m peer_bitfield h) [
      | inl l ↦
          let p = passing-Passes _ _ i l in
          record {
            candidate = ground (
              arith,
              s.listed (record { availability = p.availability; piece_index = i }),
              p.there,
            );
            offered = ground (arith, p.passes);
            kept = ground (arith, p.passes);
            open_to = inl (ground (arith, p.passes));
          }
      | inr l ↦
          let p = passing-Passes _ _ i l in
          record {
            candidate = ground (
              arith,
              s.listed (record { availability = p.availability; piece_index = i }),
              p.there,
            );
            offered = ground (arith, p.passes);
            kept = ground (arith, p.passes);
            open_to = inr (ground (arith, p.passes));
          }
    ]
