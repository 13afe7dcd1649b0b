-- ===== src/Peer/Choking/Tests.antt =====
-- Runs of the choking algorithm on concrete peers, with natural numbers as rates.
use rbitt.Prelude.{ℕ, ◌≤◌, ◌≡◌, refl, Bool, true, false, none, some, [], ◌∷◌, ltb, arith}
use rbitt.Net.{SocketAddr, v4}
use rbitt.Peer.Choking.{
  max_unchoked, ChokingDecision, choke, unchoke, no_change, ChokingAlgorithm, PeerStats, Peers,
  at_addr, run,
}
use rbitt.Peer.Choking.Bounds.{unchokes, unchokes-run}

abbrev faster : ℕ → ℕ → Bool
faster a b = ltb b a

abbrev at_port : ℕ → SocketAddr
at_port port = v4 (10 ∷ 0 ∷ 0 ∷ 1 ∷ []) port

abbrev peer : ℕ → Bool → PeerStats ℕ faster
peer rate choked = record {
  download_rate = rate;
  upload_rate = 0;
  is_interested = true;
  is_choking_us = false;
  is_choked_by_us = choked;
  last_received = 0;
  is_seed = false;
}

abbrev two_peers : Peers ℕ faster
two_peers = (at_port 1, peer 5 true) ∷ (at_port 2, peer 9 false) ∷ []

abbrev started : ChokingAlgorithm
started = record {
  last_unchoke = 0;
  last_optimistic = 0;
  optimistic_peer = some (at_port 2);
  we_are_seeding = false;
}

unchokes-run_example : unchokes (run ℕ faster 40 0 started two_peers).1 ≤ max_unchoked
unchokes-run_example = unchokes-run ℕ faster 40 0 started two_peers

-- The fastest of two peers is choked, although both fit the regular places, because it was the
-- optimistic one.
fastest_choked : at_addr (at_port 2) (run ℕ faster 40 0 started two_peers).1 ≡ some choke
unfolding at_addr run rbitt.Prelude.Search.keep rbitt.Peer.Choking.put_addr rbitt.Net.same_addr
    rbitt.Prelude.Same.same_bytes rbitt.Peer.Choking.is_unchoke rbitt.Prelude.Sort.sort
    rbitt.Prelude.Sort.place
fastest_choked = refl
