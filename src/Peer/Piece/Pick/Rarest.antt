-- ===== src/Peer/Piece/Pick/Rarest.antt =====
-- src-tauri/crates/oxidebt-peer/src/piece.rs: the picked piece is one of the rarest.
use rbitt.Prelude.{
  ℕ, ◌≤◌, ◌≡◌, refl, ap, inl, inr, Bool, true, false, Bool-cases, Option-cases, ◌&&◌, none, some,
  List, [], ◌∷◌, All, contains, arith,
}
use rbitt.Peer.Bitfield.{Bitfield}
use rbitt.Peer.Piece.{PieceWithAvailability, same_piece, before, Candidates, get_availability}
use rbitt.Peer.Piece.Candidates.{member, Ascending}
use rbitt.Peer.Piece.Manager.{PieceManager, have_count}
use rbitt.Peer.Piece.Synced.{IsSynced}
use rbitt.Peer.Piece.Pick.{cold_start_threshold, is_fresh, passing, first?, choose, pick_piece}

none_in : (xs : List ℕ) (j : ℕ) → first? xs ≡ none → contains j xs ≡ false
none_in [] j h = refl
none_in (x ∷ xs) j h = cc

All-member :
    (q p : PieceWithAvailability) (ps : Candidates)
    → All (λ r. before q r ≡ true) ps
    → member p ps ≡ true
    → q.availability ≤ p.availability
All-member q p [] all h = cc
All-member q p (r ∷ ps) all h = ground (arith, All-member q p ps)

-- The first that passes is at most as available as any other that passes.
passing-least :
    (test : ℕ → Bool) (ps : Candidates) {i : ℕ} (p : PieceWithAvailability)
    → Ascending ps
    → first? (passing test ps) ≡ some i
    → member p ps ≡ true
    → test p.piece_index ≡ true
    → (a : ℕ) × (member (record { availability = a; piece_index = i }) ps ≡ true)
      × (a ≤ p.availability)
unfolding passing
passing-least test [] p asc h there t = cc
passing-least test (q ∷ ps) {i} p asc h there t = elim (Bool-cases (test q.piece_index)) [
  | inl hit ↦ (q.availability, ground (arith, hit), ground (arith, hit, All-member q p ps))
  | inr miss ↦
      let other : same_piece q p ≡ false =
        ground (arith, λ (e : q.piece_index ≡ p.piece_index). ap test e) in
      let (a, there', le) =
        passing-least test ps {i = i} p asc.1 (ground (arith, miss)) (ground (arith, other)) t in
      (a, ground (arith, there'), le)
]

contains-passing :
    (test : ℕ → Bool) (ps : Candidates) (p : PieceWithAvailability)
    → member p ps ≡ true
    → test p.piece_index ≡ true
    → contains p.piece_index (passing test ps) ≡ true
unfolding passing
contains-passing test [] p h t = cc
contains-passing test (q ∷ ps) p h t =
    ground (arith, contains-passing test ps p, λ (e : q.piece_index ≡ p.piece_index). ap test e)

-- If the candidates are in step and we have four pieces, then no candidate that the peer has and
-- that nobody downloads is rarer than the picked piece, wherever there is such a candidate.
pub pick_piece-rarest :
    (shuffle : List ℕ → List ℕ) (m : PieceManager) (peer_bitfield : Bitfield) {i : ℕ} (j : ℕ)
    → IsSynced m
    → cold_start_threshold ≤ have_count m
    → pick_piece shuffle m peer_bitfield ≡ some i
    → contains j m.downloadable.in_candidates ≡ true
    → is_fresh m peer_bitfield j ≡ true
    → get_availability m.availability_index i ≤ get_availability m.availability_index j
unfolding pick_piece choose
pick_piece-rarest shuffle m peer_bitfield {i} j s warm h listed_j fresh_j =
    let test : ℕ → Bool = λ i. true && is_fresh m peer_bitfield i in
    let p : PieceWithAvailability = record {
      availability = get_availability m.availability_index j;
      piece_index = j;
    } in
    let there : member p m.downloadable.candidates ≡ true = ground (arith, s.listed p) in
    let is = passing test m.downloadable.candidates in
    elim (Option-cases (first? is)) [
      | inl nobody ↦ absurd (
          ground (
            arith,
            none_in is j nobody,
            contains-passing test m.downloadable.candidates p there fresh_j,
          ))
      | inr (k, found) ↦
          let first : first? is ≡ some i = ground (arith, h, found) in
          let (a, there', le) =
            passing-least test m.downloadable.candidates {i = i} p s.ascending first there
              fresh_j in
          ground (arith, s.listed (record { availability = a; piece_index = i }))
    ]
