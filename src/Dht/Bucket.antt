-- ===== src/Dht/Bucket.antt =====
-- src-tauri/crates/oxidebt-dht/src/routing.rs, `Bucket`: at most eight nodes, the one seen longest
-- ago first, and at most eight that wait to replace one of them.
pub mod Bounds
use rbitt.Prelude.{
  ℕ, Bool, true, false, Option, none, some, List, [], ◌∷◌, ◌++◌, ltb, if◌then◌else◌, length,
}
use rbitt.Prelude.Same.{same_bytes}
use rbitt.Prelude.Search.{first, remove_first, keep, change_first}
use rbitt.Dht.Node.{NodeId, Node, touch, is_good}

-- `DHT_BUCKET_SIZE`
abbrev pub k : ℕ
k = 8

pub record Bucket : Type 0 where
  pub nodes : List Node
  pub replacement_cache : List Node

-- `|n| &n.id == id`
abbrev pub has_id : NodeId → Node → Bool
has_id id node = same_bytes node.id id

unfoldable pub new : Bucket
new = record { nodes = []; replacement_cache = [] }

unfoldable pub add : ℕ → Bucket → Node → Bucket × Bool
add now b node = elim (first (has_id node.id) b.nodes) [
  | some existing ↦ (
    record b { nodes = remove_first (has_id node.id) b.nodes ++ (touch now existing ∷ []) },
    true,
  )
  | none ↦
      if ltb (length b.nodes) k
      then (record b { nodes = b.nodes ++ (node ∷ []) }, true)
      else if ltb (length b.replacement_cache) k
      then (record b { replacement_cache = b.replacement_cache ++ (node ∷ []) }, false)
      else (b, false)
]

-- The bucket without one of its nodes: the oldest replacement, where there is one, is put in.
unfoldable pub refill : List Node → List Node → Bucket
refill nodes [] = record { nodes = nodes; replacement_cache = [] }
refill nodes (replacement ∷ rest) = record {
  nodes = nodes ++ (replacement ∷ []);
  replacement_cache = rest;
}

unfoldable pub remove : Bucket → NodeId → Bucket × Option Node
unfolding refill
remove b id = elim (first (has_id id) b.nodes) [
  | some removed ↦ (refill (remove_first (has_id id) b.nodes) b.replacement_cache, some removed)
  | none ↦ (b, none)
]

unfoldable pub get : Bucket → NodeId → Option Node
get b id = first (has_id id) b.nodes

-- `get_mut`, and the change that its caller makes there
unfoldable pub change : Bucket → NodeId → (Node → Node) → Bucket
change b id f = record b { nodes = change_first (has_id id) f b.nodes }

unfoldable pub oldest : Bucket → Option Node
oldest b = first (λ n. true) b.nodes

unfoldable pub good_nodes : ℕ → Bucket → List Node
good_nodes now b = keep (is_good now) b.nodes
