-- ===== src/Dht/Bucket/Bounds.antt =====
-- The sizes of a bucket, which every operation keeps: a node waits to replace another only where
-- the bucket is full.
use rbitt.Prelude.{
  ℕ, suc, ◌≤◌, ◌<◌, ◌≡◌, ◌∙◌, List, [], ◌∷◌, inl, inr, Option-cases, length, length-append, All,
  All-append, arith,
}
use rbitt.Prelude.Search.{
  first, remove_first, length-change_first, length-remove_first-some, All-first, All-remove_first,
  All-change_first,
}
use rbitt.Dht.Node.{NodeId, Node, touch}
use rbitt.Dht.Bucket.{Bucket, k, has_id, add, refill, remove, change}

abbrev pub Sized : List Node → List Node → Type 0
Sized nodes waiting =
    (length nodes ≤ k) × (length waiting ≤ k) × (0 < length waiting → length nodes ≡ k)

abbrev pub IsSized : Bucket → Type 0
IsSized b = Sized b.nodes b.replacement_cache

pub add-IsSized : (now : ℕ) (b : Bucket) (node : Node) → IsSized b → IsSized (add now b node).0
unfolding add
add-IsSized now b node s = elim (Option-cases (first (has_id node.id) b.nodes)) [
  | inl e ↦
      rw (e, add)
        (ground (
          arith,
          s,
          length-append b.nodes (node ∷ []),
          length-append b.replacement_cache (node ∷ []),
        ))
  | inr (existing, e) ↦
      rw (e, add)
        (ground (
          arith,
          s,
          length-append (remove_first (has_id node.id) b.nodes) (touch now existing ∷ []),
          length-remove_first-some (has_id node.id) b.nodes existing e,
        ))
]

refill-IsSized :
    (nodes waiting : List Node) (m : ℕ)
    → suc (length nodes) ≡ m
    → m ≤ k
    → length waiting ≤ k
    → (0 < length waiting → m ≡ k)
    → IsSized (refill nodes waiting)
unfolding refill
refill-IsSized nodes [] m e h w full = ground arith
refill-IsSized nodes (x ∷ waiting) m e h w full =
    ground (arith, full (omega arith), length-append nodes (x ∷ []))

pub remove-IsSized : (b : Bucket) (id : NodeId) → IsSized b → IsSized (remove b id).0
unfolding remove
remove-IsSized b id s = elim (Option-cases (first (has_id id) b.nodes)) [
  | inl e ↦ rw (e, remove) s
  | inr (removed, e) ↦
      rw (e, remove)
        (refill-IsSized (remove_first (has_id id) b.nodes) b.replacement_cache (length b.nodes)
          (length-remove_first-some (has_id id) b.nodes removed e) s.0 s.1 s.2)
]

pub change-IsSized :
    (b : Bucket) (id : NodeId) (f : Node → Node) → IsSized b → IsSized (change b id f)
unfolding change
change-IsSized b id f s =
    let same = length-change_first (has_id id) f b.nodes in
    (omega (arith, same, s.0), s.1, λ w. same ∙ s.2 w)

-- A property of the nodes, also of those that wait.
abbrev pub Holds : (Node → Type 0) → Bucket → Type 0
Holds P b = All P b.nodes × All P b.replacement_cache

module _ (P : Node → Type 0) where
  pub add-Holds :
      (now : ℕ) (b : Bucket) (node : Node)
      → ((n : Node) → P n → P (touch now n))
      → P node
      → Holds P b
      → Holds P (add now b node).0
  unfolding add
  add-Holds now b node kept h s = elim (Option-cases (first (has_id node.id) b.nodes)) [
    | inl e ↦
        rw (e, add)
          (ground (
            arith,
            s,
            All-append P b.nodes (node ∷ []) s.0 (h, tt),
            All-append P b.replacement_cache (node ∷ []) s.1 (h, tt),
          ))
    | inr (existing, e) ↦
        rw (e, add)
          (
            All-append P (remove_first (has_id node.id) b.nodes) (touch now existing ∷ [])
                (All-remove_first (has_id node.id) P b.nodes s.0)
                (kept existing (All-first (has_id node.id) P b.nodes existing s.0 e), tt),
            s.1,
          )
  ]

  refill-Holds :
      (nodes waiting : List Node) → All P nodes → All P waiting → Holds P (refill nodes waiting)
  unfolding refill
  refill-Holds nodes [] h w = (h, tt)
  refill-Holds nodes (x ∷ waiting) h w = (All-append P nodes (x ∷ []) h (w.0, tt), w.1)

  pub remove-Holds : (b : Bucket) (id : NodeId) → Holds P b → Holds P (remove b id).0
  unfolding remove
  remove-Holds b id s = elim (Option-cases (first (has_id id) b.nodes)) [
    | inl e ↦ rw (e, remove) s
    | inr (removed, e) ↦
        rw (e, remove)
          (refill-Holds (remove_first (has_id id) b.nodes) b.replacement_cache
            (All-remove_first (has_id id) P b.nodes s.0) s.1)
  ]

  pub change-Holds :
      (b : Bucket) (id : NodeId) (f : Node → Node)
      → ((n : Node) → P n → P (f n))
      → Holds P b
      → Holds P (change b id f)
  unfolding change
  change-Holds b id f kept s = (All-change_first (has_id id) P f b.nodes kept s.0, s.1)
