-- ===== src/Peer/Piece/Synced.antt =====
-- src-tauri/crates/oxidebt-peer/src/piece.rs: the ordered set of candidates, the set of their
-- indices and the availability index stay in step, whatever operation of `PieceManager` runs by itself.
use rbitt.Prelude.{
  ℕ, zero, suc, ◌+◌, ◌≡◌, refl, ap, inl, inr, false, ◌&&◌, Bool-cases, ◌==◌, get_or,
  get_or-set_self, get_or-set_ne, get_or_beyond, All-get_or, All-replicate, subst, sym, ◌-◌,
  replicate, contains, arith, ◌%◌, ◌^◌,
}
use rbitt.Prelude.Maps.{contains-set_insert, contains-set_remove}
use rbitt.Peer.Piece.{
  PieceWithAvailability, DownloadablePieces, AvailabilityIndex, get_availability, increment,
  decrement, add_piece, remove_piece, update_piece, remove, new_index,
}
use rbitt.Peer.Piece.Candidates.{
  member, Ascending, insert-Ascending, remove-Ascending, member-insert, member-remove,
}
use rbitt.Peer.Piece.Manager.{PieceManager, add_all, follow}

abbrev pair : ℕ → ℕ → PieceWithAvailability
pair a i = record { availability = a; piece_index = i }

-- The candidates are in order, and they are the indices of the set, each with its availability.
pub record Synced (index : AvailabilityIndex) (d : DownloadablePieces) : Type 0 where
  pub ascending : Ascending d.candidates
  pub listed :
      (p : PieceWithAvailability)
      → member p d.candidates ≡ (
          contains p.piece_index d.in_candidates
          && (get_availability index p.piece_index == p.availability))

module _ {index : AvailabilityIndex} {d : DownloadablePieces} (s : Synced index d) where
  pub add_piece-Synced : (i : ℕ) → Synced index (add_piece d i (get_availability index i))
  unfolding add_piece
  add_piece-Synced i = elim (Bool-cases (contains i d.in_candidates)) [
    | inl t ↦ rw t s
    | inr f ↦ rw f (record {
      ascending = insert-Ascending _ _ s.ascending;
      listed = λ p. ground (
        arith,
        s.listed p,
        member-insert (pair (get_availability index i) i) p d.candidates,
        contains-set_insert i p.piece_index d.in_candidates,
        λ (e : i ≡ p.piece_index). ap (λ x. contains x d.in_candidates) e,
        λ (e : i ≡ p.piece_index). ap (get_availability index) e,
      );
    })
  ]

  pub remove_piece-Synced : (i : ℕ) → Synced index (remove_piece d i (get_availability index i))
  unfolding remove_piece
  remove_piece-Synced i = elim (Bool-cases (contains i d.in_candidates)) [
    | inl t ↦ rw t (record {
      ascending = remove-Ascending _ _ s.ascending;
      listed = λ p. ground (
        arith,
        s.listed p,
        member-remove (pair (get_availability index i) i) p d.candidates s.ascending,
        contains-set_remove i p.piece_index d.in_candidates,
        λ (e : i ≡ p.piece_index). ap (λ x. contains x d.in_candidates) e,
        λ (e : i ≡ p.piece_index). ap (get_availability index) e,
      );
    })
    | inr f ↦ rw f s
  ]

  -- The index changes at one piece only.
  pub update_piece-Synced :
      (i new_avail : ℕ) (index' : AvailabilityIndex)
      → get_availability index' i ≡ new_avail
      → ((j : ℕ) → (i == j) ≡ false → get_availability index' j ≡ get_availability index j)
      → Synced index' (update_piece d i (get_availability index i) new_avail)
  unfolding update_piece
  update_piece-Synced i new_avail index' at_i others =
      elim (Bool-cases (contains i d.in_candidates)) [
        | inl t ↦ rw t (record {
          ascending = insert-Ascending _ _ (remove-Ascending _ _ s.ascending);
          listed = λ p. ground (
            arith,
            s.listed p,
            at_i,
            others p.piece_index,
            member-insert (pair new_avail i) p
                (remove (pair (get_availability index i) i) d.candidates),
            member-remove (pair (get_availability index i) i) p d.candidates s.ascending,
            λ (e : i ≡ p.piece_index). ap (λ x. contains x d.in_candidates) e,
            λ (e : i ≡ p.piece_index). ap (get_availability index) e,
            λ (e : i ≡ p.piece_index). ap (get_availability index') e,
          );
        })
        | inr f ↦ rw f (record {
          ascending = s.ascending;
          listed = λ p. ground (
            arith,
            s.listed p,
            others p.piece_index,
            λ (e : i ≡ p.piece_index). ap (λ x. contains x d.in_candidates) e,
          );
        })
      ]

-- A change of the index that reports the old and the new count, and leaves the other pieces.
pub record Reports (change : AvailabilityIndex → ℕ → (ℕ × ℕ) × AvailabilityIndex) : Type 0 where
  pub old : (index : AvailabilityIndex) (i : ℕ) → (change index i).0.0 ≡ get_availability index i
  pub new_count :
      (index : AvailabilityIndex) (i : ℕ)
      → (change index i).0.1 ≡ get_availability (change index i).1 i
  pub others :
      (index : AvailabilityIndex) (i j : ℕ)
      → (i == j) ≡ false
      → get_availability (change index i).1 j ≡ get_availability index j

pub increment-Reports : Reports increment
unfolding increment get_availability
increment-Reports = record {
  old = λ index i. ground (arith, get_or_beyond index i 0);
  new_count = λ index i.
      ground (
        arith,
        get_or_beyond index i 0,
        get_or-set_self index i ((get_or index i 0 + 1) % 2 ^ 32) 0,
      );
  others =
      λ index i j ne. ground (arith, get_or-set_ne index i j ((get_or index i 0 + 1) % 2 ^ 32) 0);
}

pub decrement-Reports : Reports decrement
unfolding decrement get_availability
decrement-Reports = record {
  old = λ index i. ground (arith, get_or_beyond index i 0);
  new_count = λ index i.
      ground (arith, get_or_beyond index i 0, get_or-set_self index i (get_or index i 0 - 1) 0);
  others = λ index i j ne. ground (arith, get_or-set_ne index i j (get_or index i 0 - 1) 0);
}

abbrev pub IsSynced : PieceManager → Type 0
IsSynced m = Synced m.availability_index m.downloadable

module _ {change : AvailabilityIndex → ℕ → (ℕ × ℕ) × AvailabilityIndex}
    (reports : Reports change) where
  pub follow-IsSynced : (m : PieceManager) (i : ℕ) → IsSynced m → IsSynced (follow change m i)
  unfolding follow
  follow-IsSynced m i s = rw (reports.old m.availability_index i) (
      update_piece-Synced s i _ _ (sym (reports.new_count m.availability_index i))
        (reports.others m.availability_index i))

zero_availability : (n i : ℕ) → get_availability (new_index n) i ≡ 0
unfolding get_availability
zero_availability n i =
    All-get_or (λ (a : ℕ). a ≡ 0) (replicate n 0) i 0 refl
      (All-replicate (λ (a : ℕ). a ≡ 0) n 0 refl)

pub add_all-Synced : (n k : ℕ) → Synced (new_index n) (add_all k)
unfolding add_all
add_all-Synced n zero = record { ascending = tt; listed = λ p. refl }
add_all-Synced n (suc k) =
    subst (λ a. Synced (new_index n) (add_piece (add_all k) k a)) (zero_availability n k)
      (add_piece-Synced (add_all-Synced n k) k)
