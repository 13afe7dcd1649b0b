-- ===== src/Dht/Routing.antt =====
-- src-tauri/crates/oxidebt-dht/src/routing.rs: the table of the buckets.
-- Each operation holds the lock of its bucket throughout: it is a function on the table. An
-- operation that asks for the present time takes it as `now`. A bucket number out of range panics
-- in the source; an identifier of twenty bytes has none.
pub mod Closest
pub mod Reachable
use rbitt.Prelude.{
  ℕ, suc, ◌+◌, ◌*◌, ◌≡◌, Bool, true, false, ◌&&◌, Option, none, some, List, [], ◌∷◌, ◌++◌, Bytes,
  ltb, if◌then◌else◌, length, get_or, set, replicate, take,
}
use rbitt.Prelude.Lex.{lex_lt}
use rbitt.Prelude.Same.{same_bytes}
use rbitt.Prelude.Search.{first, remove_first, keep, change_first}
use rbitt.Prelude.Sort.{sort}
use rbitt.Net.{SocketAddr, same_addr}
use rbitt.Dht.Bucket.{Bucket}
use rbitt.Dht.Bucket
use rbitt.Dht.Node.{
  NodeId, Node, distance, bucket_index, touch, fail, is_good, is_bad, elapsed_secs,
}

-- `DHT_NUM_BUCKETS`
abbrev pub num_buckets : ℕ
num_buckets = 160

pub record RoutingTable : Type 0 where
  pub our_id : NodeId
  pub buckets : List Bucket

unfoldable pub new : NodeId → RoutingTable
unfolding Bucket.new
new our_id = record { our_id = our_id; buckets = replicate num_buckets Bucket.new }

-- `self.buckets[index]`
abbrev pub bucket_at : RoutingTable → ℕ → Bucket
bucket_at t index = get_or t.buckets index Bucket.new

abbrev pub set_bucket : RoutingTable → ℕ → Bucket → RoutingTable
set_bucket t index b = record t { buckets = set t.buckets index b }

unfoldable pub add_node : ℕ → RoutingTable → Node → RoutingTable
unfolding Bucket.add
add_node now t node =
    let bucket_idx = bucket_index t.our_id node.id in
    let bucket = bucket_at t bucket_idx in
    if same_bytes node.id t.our_id
    then t
    else set_bucket t bucket_idx (Bucket.add now bucket node).0

unfoldable pub remove_node : RoutingTable → NodeId → RoutingTable
unfolding Bucket.remove
remove_node t id =
    let bucket_idx = bucket_index t.our_id id in
    set_bucket t bucket_idx (Bucket.remove (bucket_at t bucket_idx) id).0

unfoldable pub mark_failed : ℕ → RoutingTable → NodeId → RoutingTable
unfolding Bucket.get Bucket.change Bucket.remove
mark_failed now t id =
    let bucket_idx = bucket_index t.our_id id in
    let bucket = bucket_at t bucket_idx in
    elim (Bucket.get bucket id) [
      | none ↦ t
      | some node ↦
          let failed = Bucket.change bucket id fail in
          set_bucket t bucket_idx
            (if is_bad now (fail node) then (Bucket.remove failed id).0 else failed)
    ]

unfoldable pub mark_seen : ℕ → RoutingTable → NodeId → RoutingTable
unfolding Bucket.change
mark_seen now t id =
    let bucket_idx = bucket_index t.our_id id in
    set_bucket t bucket_idx (Bucket.change (bucket_at t bucket_idx) id (touch now))

-- `flat_map` over the buckets, in their order
unfoldable pub gather : (Bucket → List Node) → List Bucket → List Node
gather f [] = []
gather f (b ∷ bs) = f b ++ gather f bs

-- Nearer to the target, as `sort_by_key` compares the distances.
abbrev pub nearer : NodeId → Node → Node → Bool
nearer target a b = lex_lt (distance a.id target) (distance b.id target)

unfoldable pub find_closest : ℕ → RoutingTable → NodeId → ℕ → List Node
find_closest now t target count =
    take count (sort (nearer target) (gather (Bucket.good_nodes now) t.buckets))

unfoldable pub node_count : RoutingTable → ℕ
node_count t = count_all t.buckets
  where
    count_all : List Bucket → ℕ
    count_all [] = 0
    count_all (b ∷ bs) = length b.nodes + count_all bs

unfoldable pub all_nodes : RoutingTable → List Node
all_nodes t = gather (λ b. b.nodes) t.buckets

unfoldable pub find_node : RoutingTable → NodeId → Option Node
unfolding Bucket.get
find_node t id = Bucket.get (bucket_at t (bucket_index t.our_id id)) id

unfoldable pub find_by_addr : RoutingTable → SocketAddr → Option Node
find_by_addr t addr = first (λ n. same_addr n.addr addr) (all_nodes t)

unfoldable pub stale_from : ℕ → ℕ → List Bucket → List ℕ
stale_from now i [] = []
stale_from now i (b ∷ bs) =
    let rest = stale_from now (suc i) bs in
    elim (Bucket.oldest b) [
      | none ↦ rest
      | some node ↦ if ltb (15 * 60) (elapsed_secs now node.last_seen) then i ∷ rest else rest
    ]

unfoldable pub stale_buckets : ℕ → RoutingTable → List ℕ
unfolding stale_from
stale_buckets now t = stale_from now 0 t.buckets
