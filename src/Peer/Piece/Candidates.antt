-- ===== src/Peer/Piece/Candidates.antt =====
-- src-tauri/crates/oxidebt-peer/src/piece.rs: the ordered set of candidates.
use rbitt.Prelude.{◌≡◌, refl, Bool, true, false, not, ◌&&◌, ◌||◌, [], ◌∷◌, All, arith}
use rbitt.Peer.Piece.{PieceWithAvailability, same_piece, before, Candidates, insert, remove}

abbrev pub member : PieceWithAvailability → Candidates → Bool
member q [] = false
member q (p ∷ ps) = same_piece p q || member q ps

-- Each candidate is before those behind it.
abbrev pub Ascending : Candidates → Type 0
Ascending [] = Unit
Ascending (p ∷ ps) = All (λ q. before p q ≡ true) ps × Ascending ps

All-insert :
    (r p : PieceWithAvailability) (ps : Candidates)
    → before r p ≡ true
    → All (λ q. before r q ≡ true) ps
    → All (λ q. before r q ≡ true) (insert p ps)
unfolding insert
All-insert r p [] h all = (h, tt)
All-insert r p (q ∷ ps) h all = ground (arith, All-insert r p ps)

All-before_trans :
    (p q : PieceWithAvailability) (ps : Candidates)
    → before p q ≡ true
    → All (λ r. before q r ≡ true) ps
    → All (λ r. before p r ≡ true) ps
All-before_trans p q [] h all = tt
All-before_trans p q (r ∷ ps) h all = (ground arith, All-before_trans p q ps h all.1)

pub insert-Ascending :
    (p : PieceWithAvailability) (ps : Candidates) → Ascending ps → Ascending (insert p ps)
unfolding insert
insert-Ascending p [] h = (tt, tt)
insert-Ascending p (q ∷ ps) h =
    ground (arith, All-insert q p ps, All-before_trans p q ps, insert-Ascending p ps)

All-remove :
    (r p : PieceWithAvailability) (ps : Candidates)
    → All (λ q. before r q ≡ true) ps
    → All (λ q. before r q ≡ true) (remove p ps)
unfolding remove
All-remove r p [] all = tt
All-remove r p (q ∷ ps) all = ground (arith, All-remove r p ps)

pub remove-Ascending :
    (p : PieceWithAvailability) (ps : Candidates) → Ascending ps → Ascending (remove p ps)
unfolding remove
remove-Ascending p [] h = tt
remove-Ascending p (q ∷ ps) h = ground (arith, All-remove q p ps, remove-Ascending p ps)

pub member-insert :
    (p q : PieceWithAvailability) (ps : Candidates)
    → member q (insert p ps) ≡ (same_piece p q || member q ps)
unfolding insert
member-insert p q [] = refl
member-insert p q (r ∷ ps) = ground (arith, member-insert p q ps)

none_above :
    (p : PieceWithAvailability) (ps : Candidates)
    → All (λ q. before p q ≡ true) ps
    → member p ps ≡ false
none_above p [] all = refl
none_above p (q ∷ ps) all = ground (arith, none_above p ps)

pub member-remove :
    (p q : PieceWithAvailability) (ps : Candidates)
    → Ascending ps
    → member q (remove p ps) ≡ (not (same_piece p q) && member q ps)
unfolding remove
member-remove p q [] h = ground arith
member-remove p q (r ∷ ps) h = ground (arith, member-remove p q ps, none_above r ps)
