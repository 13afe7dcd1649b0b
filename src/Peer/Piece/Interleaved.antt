-- ===== src/Peer/Piece/Interleaved.antt =====
-- src-tauri/crates/oxidebt-peer/src/piece.rs: calls of `PieceManager` on several threads. A change of
-- availability is two steps: the counter of the piece changes, and later, with the lock, the candidates
-- follow it. Between the two, other threads take their steps, but no other call that reads or changes
-- the counter of the same piece; the code does not see to that, and `Tests` has a run where two calls
-- about one piece overlap.
pub mod Sound
use rbitt.Prelude.{ℕ, ◌<◌, ◌≡◌, refl, false, some, [], ◌∷◌}
use rbitt.Prelude.Maps.{Map, lookup, delete, has_key}
use rbitt.Peer.Piece.{AvailabilityIndex, increment, decrement, update_piece}
use rbitt.Peer.Piece.Manager.{PieceManager, new, follow, mark_piece_complete, mark_piece_failed}
use rbitt.Peer.Piece.Reachable

-- The manager, and the changes that the candidates do not follow yet: of each piece the count before
-- and the count after.
pub record Shared : Type 0 where
  pub manager : PieceManager
  pub unsettled : Map (ℕ × ℕ)

-- The counter of a piece changes.
unfoldable pub count : (AvailabilityIndex → ℕ → (ℕ × ℕ) × AvailabilityIndex) → Shared → ℕ → Shared
count change s i =
    let changed = change s.manager.availability_index i in
    record {
      manager = record s.manager { availability_index = changed.1 };
      unsettled = (i, changed.0) ∷ s.unsettled;
    }

-- The candidates follow it.
unfoldable pub settle : Shared → ℕ → ℕ × ℕ → Shared
settle s i counts = record {
  manager = record s.manager {
    downloadable = update_piece s.manager.downloadable i counts.0 counts.1;
  };
  unsettled = delete i s.unsettled;
}

-- The calls that complete or fail a piece read its counter and then change the candidates: one step,
-- since no other call has to do with that counter in between.
pub data Step (s : Shared) : Shared → Type 0 where
  counts_up :
      (i : ℕ)
      → i < s.manager.piece_count
      → has_key i s.unsettled ≡ false
      → Step s (count increment s i)
  counts_down :
      (i : ℕ)
      → i < s.manager.piece_count
      → has_key i s.unsettled ≡ false
      → Step s (count decrement s i)
  settles :
      (i : ℕ) (counts : ℕ × ℕ) → lookup i s.unsettled ≡ some counts → Step s (settle s i counts)
  completes :
      (i : ℕ)
      → has_key i s.unsettled ≡ false
      → Step s (record s { manager = mark_piece_complete s.manager i })
  fails :
      (i : ℕ)
      → has_key i s.unsettled ≡ false
      → Step s (record s { manager = mark_piece_failed s.manager i })
  -- A call that has to do with neither the counters nor the candidates nor our bitfield.
  others :
      (m : PieceManager)
      → Reachable.Step s.manager m
      → m.availability_index ≡ s.manager.availability_index
      → m.downloadable ≡ s.manager.downloadable
      → m.our_bitfield ≡ s.manager.our_bitfield
      → m.piece_count ≡ s.manager.piece_count
      → Step s (record s { manager = m })

pub data Reached (piece_count piece_length total_length : ℕ) : Shared → Type 0 where
  begins :
      Reached piece_count piece_length total_length
        (record { manager = new piece_count piece_length total_length; unsettled = [] })
  goes_on :
      {s s' : Shared}
      → Reached piece_count piece_length total_length s
      → Step s s'
      → Reached piece_count piece_length total_length s'

-- A change that nothing comes between is the operation as a whole.
pub settle-count :
    (change : AvailabilityIndex → ℕ → (ℕ × ℕ) × AvailabilityIndex) (m : PieceManager) (i : ℕ)
    → (settle
        (count change (record { manager = m; unsettled = [] }) i)
        i
        (change m.availability_index i).0).manager
      ≡ follow change m i
unfolding settle count follow
settle-count change m i = refl
