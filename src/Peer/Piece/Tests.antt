-- ===== src/Peer/Piece/Tests.antt =====
-- Runs of the piece manager on concrete inputs, and its theorems at such inputs.
use rbitt.Prelude.{
  ℕ, ◌*◌, ◌%◌, ◌^◌, ◌≤◌, ◌<◌, ◌≡◌, refl, ◌⊎◌, Bool, true, false, some, none, [], ◌∷◌, Bytes, List,
  arith,
}
use rbitt.Prelude.Maps.{lookup}
use rbitt.Peer.Error.{err, invalid_piece_index}
use rbitt.Peer.Bitfield.{Bitfield}
use rbitt.Peer.Piece.{BlockRequest, get_availability}
use rbitt.Peer.Piece.Manager.{
  PieceManager, new, mark_piece_complete, update_availability, increment_piece_availability,
  piece_size, receive_block, start_piece,
}
use rbitt.Peer.Piece.{DownloadablePieces, no_pieces, add_piece, update_piece, increment}
use rbitt.Peer.Piece.Interleaved
use rbitt.Peer.Piece.Interleaved.{Shared, count, settle}
use rbitt.Peer.Piece.Reachable.{
  Reachable, begins, goes_on, completes, joins, announces, Reachable-IsSound,
}
use rbitt.Peer.Piece.Pick.{
  pick_piece, pick_piece_with_priorities, pick_piece_sequential_with_priorities,
}
use rbitt.Peer.Piece.Pick.Wanted.{IsWanted, pick_piece_with_priorities-IsWanted}
use rbitt.Peer.Piece.Pick.Rarest.{pick_piece-rarest}
use rbitt.Peer.Piece.Pick.Sequential.{is_needed, is_shared, pick_piece_sequential_lowest}
use rbitt.Peer.Piece.Requests.{get_block_requests}
use rbitt.Peer.Piece.Requests.Tiles.{Tiles, missing, get_block_requests-Tiles}
use rbitt.Peer.Piece.Sizes.{sizes_below, sizes_add_up}

-- Six pieces, of which we have the first four; a peer has the last two, and another the fifth.
abbrev peer_bits : Bitfield
peer_bits = record { bits = 0x0c ∷ []; piece_count = 6 }

abbrev first_four : PieceManager
first_four =
    mark_piece_complete
      (mark_piece_complete (mark_piece_complete (mark_piece_complete (new 6 40000 230000) 0) 1) 2) 3

abbrev six : PieceManager
six = increment_piece_availability (update_availability first_four peer_bits) 4

six-Reachable : Reachable 6 40000 230000 six
six-Reachable =
    goes_on
      (goes_on
        (goes_on (goes_on (goes_on (goes_on begins (completes 0)) (completes 1)) (completes 2))
          (completes 3))
        (joins peer_bits))
      (announces 4)

picks_rarest : pick_piece (λ xs. xs) six peer_bits ≡ some 5
unfolding pick_piece rbitt.Peer.Piece.Pick.choose rbitt.Peer.Piece.Manager.have_count
    rbitt.Peer.Bitfield.count increment_piece_availability update_availability
    rbitt.Peer.Piece.Manager.follow_from mark_piece_complete new rbitt.Peer.Bitfield.has_piece
    rbitt.Peer.Piece.Manager.follow rbitt.Peer.Bitfield.set_piece rbitt.Peer.Bitfield.new
    rbitt.Prelude.Counting.count_below rbitt.Peer.Piece.update_piece rbitt.Peer.Piece.remove_piece
    rbitt.Peer.Piece.add_piece get_availability rbitt.Peer.Bitfield.change_bit
    rbitt.Peer.Bitfield.raw_bit rbitt.Peer.Bitfield.sum_ones rbitt.Peer.Piece.Manager.add_all
    piece_size rbitt.Peer.Piece.Pick.passing rbitt.Peer.Piece.increment rbitt.Peer.Piece.insert
    rbitt.Peer.Piece.remove
picks_rarest = refl

picks_with_priorities :
    pick_piece_with_priorities (λ xs. xs) six peer_bits (some (1 ∷ 1 ∷ 1 ∷ 1 ∷ 1 ∷ 0 ∷ [])) ≡ some 4
unfolding pick_piece_with_priorities rbitt.Peer.Piece.Pick.choose
    rbitt.Peer.Piece.Manager.have_count rbitt.Peer.Bitfield.count increment_piece_availability
    update_availability rbitt.Peer.Piece.Manager.follow_from mark_piece_complete new
    rbitt.Peer.Bitfield.has_piece rbitt.Peer.Piece.Manager.follow rbitt.Peer.Bitfield.set_piece
    rbitt.Peer.Bitfield.new rbitt.Prelude.Counting.count_below rbitt.Peer.Piece.update_piece
    rbitt.Peer.Piece.remove_piece rbitt.Peer.Piece.add_piece get_availability
    rbitt.Peer.Bitfield.change_bit rbitt.Peer.Bitfield.raw_bit rbitt.Peer.Bitfield.sum_ones
    rbitt.Peer.Piece.Manager.add_all piece_size rbitt.Peer.Piece.Pick.passing
    rbitt.Peer.Piece.increment rbitt.Peer.Piece.insert rbitt.Peer.Piece.remove
picks_with_priorities = refl

picks_in_order : pick_piece_sequential_with_priorities six peer_bits none ≡ some 4
unfolding pick_piece_sequential_with_priorities increment_piece_availability update_availability
    rbitt.Peer.Piece.Manager.follow_from mark_piece_complete new rbitt.Peer.Bitfield.has_piece
    rbitt.Peer.Piece.Manager.follow rbitt.Peer.Bitfield.set_piece rbitt.Peer.Bitfield.new
picks_in_order = refl

last_requests :
    get_block_requests six 5
    ≡ some (
        record { piece_index = 5; offset = 0; len = 16384 }
        ∷ record { piece_index = 5; offset = 16384; len = 13616 }
        ∷ [])
unfolding get_block_requests rbitt.Peer.Piece.Requests.requests_from piece_size
    increment_piece_availability update_availability rbitt.Peer.Piece.Manager.follow_from
    mark_piece_complete new rbitt.Peer.Bitfield.has_piece rbitt.Peer.Piece.Manager.follow
last_requests = refl

refuses_inactive :
    receive_block six (record { piece_index = 4; offset = 0; bytes = [] })
    ≡ err (invalid_piece_index 4)
unfolding receive_block increment_piece_availability update_availability
    rbitt.Peer.Piece.Manager.follow_from mark_piece_complete new rbitt.Peer.Bitfield.has_piece
    rbitt.Peer.Piece.Manager.follow
refuses_inactive = refl

-- Two threads change the counts of two pieces; both counters change before the candidates follow.
abbrev before_calls : Shared
before_calls = record { manager = new 6 40000 230000; unsettled = [] }

abbrev both_counted : Shared
both_counted = count increment (count increment before_calls 1) 4

abbrev both_settled : Shared
both_settled = settle (settle both_counted 1 (0, 1)) 4 (0, 1)

-- Two threads count up the same piece, and the candidates follow the later change first: the piece
-- stands among the candidates twice, once with a count that it no longer has.
abbrev one_piece : DownloadablePieces
one_piece = add_piece no_pieces 0 0

overlap_doubles :
    (update_piece (update_piece one_piece 0 1 2) 0 0 1).candidates
    ≡ record { availability = 1; piece_index = 0 }
      ∷ record { availability = 2; piece_index = 0 }
      ∷ []
unfolding update_piece add_piece
overlap_doubles = refl

pick_piece_with_priorities-IsWanted_example :
    IsWanted (some (1 ∷ 1 ∷ 1 ∷ 1 ∷ 1 ∷ 0 ∷ [])) six peer_bits 4
pick_piece_with_priorities-IsWanted_example =
    pick_piece_with_priorities-IsWanted (λ xs. xs) six peer_bits (some (1 ∷ 1 ∷ 1 ∷ 1 ∷ 1 ∷ 0 ∷ []))
      (λ xs j. refl) (Reachable-IsSound six-Reachable).synced picks_with_priorities

pick_piece-rarest_example :
    get_availability six.availability_index 5 ≤ get_availability six.availability_index 4
unfolding new rbitt.Peer.Piece.Manager.have_count rbitt.Peer.Bitfield.count
    increment_piece_availability update_availability rbitt.Peer.Piece.Manager.follow_from
    mark_piece_complete rbitt.Peer.Bitfield.has_piece rbitt.Peer.Piece.Manager.follow
    rbitt.Peer.Bitfield.set_piece rbitt.Peer.Bitfield.new rbitt.Prelude.Counting.count_below
    rbitt.Peer.Piece.update_piece rbitt.Peer.Piece.remove_piece rbitt.Peer.Piece.add_piece
pick_piece-rarest_example =
    pick_piece-rarest (λ xs. xs) six peer_bits 4 (Reachable-IsSound six-Reachable).synced
      (omega arith) picks_rarest refl refl

pick_piece_sequential_lowest_example :
    (4 < six.piece_count)
    × (((is_needed none six peer_bits 4 ≡ true)
          × ((k : ℕ) → k < 4 → is_needed none six peer_bits k ≡ false))
        ⊎ ((is_shared none six peer_bits 4 ≡ true)
            × ((k : ℕ) → k < six.piece_count → is_needed none six peer_bits k ≡ false)
            × ((k : ℕ) → k < 4 → is_shared none six peer_bits k ≡ false)))
pick_piece_sequential_lowest_example =
    pick_piece_sequential_lowest six peer_bits none picks_in_order

get_block_requests-Tiles_example :
    (tiles : List BlockRequest) × Tiles 5 (piece_size six 5 % 2 ^ 32) 0 tiles
    × (get_block_requests six 5 ≡ some (missing (lookup 5 six.active_pieces) tiles))
get_block_requests-Tiles_example = get_block_requests-Tiles six 5

abbrev three : PieceManager
three = new 3 40000 100000

sizes_add_up_example : sizes_below three.piece_count three ≡ three.total_length
unfolding new
sizes_add_up_example = sizes_add_up three 2 refl (omega arith) (omega arith)
