-- ===== src/Dht/Tests.antt =====
-- Runs of the hash table on concrete nodes, and its theorems applied to them.
use rbitt.Prelude.{
  ℕ, ◌<◌, ◌≡◌, ◌≢◌, refl, ap, Bool, true, false, Option, none, some, List, [], ◌∷◌, ◌++◌, All,
  IsByte, All-replicate, length, get_or, replicate, min, arith,
}
use mathlib.Core.List.{Perm}
use rbitt.Prelude.Sort.{Sorted, AllAbove}
use rbitt.Net.{SocketAddr, v4}
use rbitt.Dht.Node.{NodeId, IsId, Node, new, bucket_index, to_compact, from_compact}
use rbitt.Dht.Node.Distance.{differs, bucket_index-first_difference}
use rbitt.Dht.Bucket
use rbitt.Dht.Bucket.{Bucket, has_id}
use rbitt.Dht.Routing
use rbitt.Dht.Routing.{
  RoutingTable, add_node, remove_node, mark_failed, find_closest, find_node, nearer,
}
use rbitt.Dht.Routing.Closest.{candidates, find_closest-nearest}
use rbitt.Dht.Routing.Reachable.{
  adds, fails, Reachable, begins, goes_on, IsSound, Reachable-keeps_buckets,
}

abbrev ours : NodeId
ours = replicate 20 0

-- An identifier that shares the first fifteen bits of ours.
abbrev near_id : NodeId
near_id = 0 ∷ 1 ∷ replicate 18 7

abbrev far_id : NodeId
far_id = 200 ∷ replicate 19 7

ours-IsId : IsId ours
ours-IsId = (All-replicate IsByte 20 0 (omega arith), refl)

near_id-IsId : IsId near_id
near_id-IsId = ((omega arith, (omega arith, All-replicate IsByte 18 7 (omega arith))), refl)

far_id-IsId : IsId far_id
far_id-IsId = ((omega arith, All-replicate IsByte 19 7 (omega arith)), refl)

near_id-foreign : ours ≢ near_id
near_id-foreign e = let h : 0 ≡ 1 = ap (λ l. get_or l 1 0) e in omega (arith, h)

near_bucket : bucket_index ours near_id ≡ 15
unfolding bucket_index rbitt.Prelude.Bits.zeros_from
near_bucket = refl

far_bucket : bucket_index ours far_id ≡ 0
unfolding bucket_index rbitt.Prelude.Bits.zeros_from
far_bucket = refl

own_bucket : bucket_index ours ours ≡ 159
unfolding bucket_index
own_bucket = refl

bucket_index-first_difference_example :
    (bucket_index ours near_id < 160)
    × (differs ours near_id (bucket_index ours near_id) ≡ true)
    × ((j : ℕ) → j < bucket_index ours near_id → differs ours near_id j ≡ false)
bucket_index-first_difference_example =
    bucket_index-first_difference ours near_id ours-IsId near_id-IsId near_id-foreign

abbrev home : SocketAddr
home = v4 (127 ∷ 0 ∷ 0 ∷ 1 ∷ []) 6881

abbrev near_node : Node
near_node = record {
  id = near_id;
  addr = home;
  last_seen = 5;
  last_query = none;
  failed_queries = 0;
}

abbrev far_node : Node
far_node = record { id = far_id; addr = home; last_seen = 5; last_query = none; failed_queries = 0 }

abbrev two_nodes : RoutingTable
two_nodes = add_node 9 (add_node 8 (Routing.new ours) near_node) far_node

two_nodes-Reachable : Reachable ours two_nodes
two_nodes-Reachable =
    goes_on (goes_on begins (adds 8 near_node near_id-IsId)) (adds 9 far_node far_id-IsId)

Reachable-keeps_buckets_example : IsSound ours (mark_failed 10 two_nodes near_id)
Reachable-keeps_buckets_example =
    Reachable-keeps_buckets ours ours-IsId
      (goes_on two_nodes-Reachable (fails 10 near_id near_id-IsId))

closest_to_far : find_closest 10 two_nodes far_id 1 ≡ far_node ∷ []
unfolding find_closest rbitt.Prelude.Sort.sort Routing.gather add_node rbitt.Prelude.Same.same_bytes
    Routing.new bucket_index rbitt.Prelude.Bits.zeros_from Bucket.good_nodes
    rbitt.Prelude.Search.keep rbitt.Prelude.Search.first rbitt.Dht.Node.is_good
    rbitt.Prelude.Sort.place rbitt.Prelude.Lex.lex_lt
closest_to_far = refl

find_closest-nearest_example :
    (others : List Node) × Perm
      (find_closest 10 two_nodes far_id 1 ++ others)
      (candidates 10 two_nodes)
    × Sorted (nearer far_id) (find_closest 10 two_nodes far_id 1)
    × All (λ n. AllAbove (nearer far_id) n others) (find_closest 10 two_nodes far_id 1)
    × (length (find_closest 10 two_nodes far_id 1) ≡ min 1 (length (candidates 10 two_nodes)))
find_closest-nearest_example = find_closest-nearest 10 two_nodes far_id 1

-- A node that is offered twice to a full bucket waits twice, and comes back twice.
abbrev offer_all : List ℕ → Bucket → Bucket
offer_all [] b = b
offer_all (i ∷ is) b = offer_all is (Bucket.add 1 b (record near_node { id = i ∷ [] })).0

abbrev ids : List Node → List NodeId
ids [] = []
ids (n ∷ ns) = n.id ∷ ids ns

comes_back_twice :
    ids
      (Bucket.remove
        (Bucket.remove
          (offer_all (1 ∷ 2 ∷ 3 ∷ 4 ∷ 5 ∷ 6 ∷ 7 ∷ 8 ∷ 9 ∷ 9 ∷ []) Bucket.new)
          (1 ∷ [])).0
        (2 ∷ [])).0.nodes
    ≡ (3 ∷ []) ∷ (4 ∷ []) ∷ (5 ∷ []) ∷ (6 ∷ []) ∷ (7 ∷ []) ∷ (8 ∷ []) ∷ (9 ∷ []) ∷ (9 ∷ []) ∷ []
unfolding Bucket.remove rbitt.Prelude.Search.first Bucket.add Bucket.new
    rbitt.Prelude.Same.same_bytes rbitt.Prelude.Search.remove_first
comes_back_twice = refl
