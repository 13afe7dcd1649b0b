-- ===== src/Dht/Routing/Reachable.antt =====
-- src-tauri/crates/oxidebt-dht/src/routing.rs: the operations of `RoutingTable` as steps, and what
-- holds after any sequence of them.
use rbitt.Prelude.{
  ℕ, ◌<◌, ◌≡◌, ◌≢◌, refl, ap, ◌∙◌, sym, subst, false, Bool-cases, Option-cases, inl, inr, length,
  get_or, set, length-set, length-replicate, get_or-set_self, get_or-set_ne, get_or-replicate,
  ==_iff, ◌==◌, arith,
}
use rbitt.Prelude.Same.{same_bytes}
use rbitt.Dht.Node.{NodeId, IsId, Node, bucket_index, touch, fail, is_bad}
use rbitt.Dht.Node.Distance.{bucket_index-lt}
use rbitt.Dht.Bucket.{Bucket, add, remove, get, change}
use rbitt.Dht.Bucket
use rbitt.Dht.Bucket.Bounds.{
  IsSized, add-IsSized, remove-IsSized, change-IsSized, Holds, add-Holds, remove-Holds,
  change-Holds,
}
use rbitt.Dht.Routing.{
  RoutingTable, num_buckets, new, bucket_at, set_bucket, add_node, remove_node, mark_failed,
  mark_seen,
}

-- One call of an operation that changes the table.
pub data Step (t : RoutingTable) : RoutingTable → Type 0 where
  adds : (now : ℕ) (node : Node) → IsId node.id → Step t (add_node now t node)
  removes : (id : NodeId) → IsId id → Step t (remove_node t id)
  fails : (now : ℕ) (id : NodeId) → IsId id → Step t (mark_failed now t id)
  sees : (now : ℕ) (id : NodeId) → IsId id → Step t (mark_seen now t id)

-- The tables that the operations lead to from a new one.
pub data Reachable (our_id : NodeId) : RoutingTable → Type 0 where
  begins : Reachable our_id (new our_id)
  goes_on : {t t' : RoutingTable} → Reachable our_id t → Step t t' → Reachable our_id t'

-- A node of the bucket `index`: it is not ours, and its identifier leads to that bucket.
pub record Belongs (our_id : NodeId) (index : ℕ) (node : Node) : Type 0 where
  pub valid : IsId node.id
  pub place : bucket_index our_id node.id ≡ index
  pub foreign : same_bytes node.id our_id ≡ false

abbrev pub Fits : NodeId → ℕ → Bucket → Type 0
Fits our_id index b = IsSized b × Holds (Belongs our_id index) b

-- What every reachable table satisfies: it has 160 buckets, each holds at most eight nodes and at
-- most eight that wait, these only where it is full, and all of them belong there.
pub record IsSound (our_id : NodeId) (t : RoutingTable) : Type 0 where
  pub ours : t.our_id ≡ our_id
  pub size : length t.buckets ≡ num_buckets
  pub fits : (index : ℕ) → index < num_buckets → Fits our_id index (bucket_at t index)

set_bucket-IsSound :
    (our_id : NodeId) (t : RoutingTable) (index : ℕ) (b : Bucket)
    → IsSound our_id t
    → index < num_buckets
    → Fits our_id index b
    → IsSound our_id (set_bucket t index b)
set_bucket-IsSound our_id t index b s lt f = record {
  ours = s.ours;
  size = length-set t.buckets index b ∙ s.size;
  fits = λ j below. elim (Bool-cases (index == j)) [
    | inl e ↦
        let same : index ≡ j = (==_iff index j).0 e in
        subst (λ j. Fits our_id j (get_or (set t.buckets index b) j Bucket.new)) same
          (rw (get_or-set_self t.buckets index b Bucket.new (omega (arith, lt, s.size))) f)
    | inr e ↦
        let other : index ≢ j = ground arith in
        rw (get_or-set_ne t.buckets index j b Bucket.new other) (s.fits j below)
  ];
}

new-IsSound : (our_id : NodeId) → IsSound our_id (new our_id)
unfolding new
new-IsSound our_id = record {
  ours = refl;
  size = length-replicate num_buckets Bucket.new;
  fits = λ index below.
      rw (get_or-replicate num_buckets index Bucket.new Bucket.new below)
        ((omega arith, omega arith, omega arith), (tt, tt));
}

touch-Belongs :
    (our_id : NodeId) (i now : ℕ) (n : Node) → Belongs our_id i n → Belongs our_id i (touch now n)
unfolding touch
touch-Belongs our_id i now n h = record { valid = h.valid; place = h.place; foreign = h.foreign }

fail-Belongs : (our_id : NodeId) (i : ℕ) (n : Node) → Belongs our_id i n → Belongs our_id i (fail n)
unfolding fail
fail-Belongs our_id i n h = record { valid = h.valid; place = h.place; foreign = h.foreign }

remove-Fits :
    (our_id : NodeId) (i : ℕ) (b : Bucket) (id : NodeId)
    → Fits our_id i b
    → Fits our_id i (remove b id).0
remove-Fits our_id i b id f = (remove-IsSized b id f.0, remove-Holds (Belongs our_id i) b id f.1)

change-Fits :
    (our_id : NodeId) (i : ℕ) (b : Bucket) (id : NodeId) (f : Node → Node)
    → ((n : Node) → Belongs our_id i n → Belongs our_id i (f n))
    → Fits our_id i b
    → Fits our_id i (change b id f)
change-Fits our_id i b id f kept s =
    (change-IsSized b id f s.0, change-Holds (Belongs our_id i) b id f kept s.1)

-- The bucket of an identifier is replaced by one that fits in its place.
replaced :
    (our_id : NodeId) (t : RoutingTable) (id : NodeId) (b : Bucket)
    → IsId our_id
    → IsId id
    → IsSound our_id t
    → (Fits our_id (bucket_index our_id id) (bucket_at t (bucket_index t.our_id id))
        → Fits our_id (bucket_index our_id id) b)
    → IsSound our_id (set_bucket t (bucket_index t.our_id id) b)
replaced our_id t id b ok v s f =
    let lt = bucket_index-lt our_id id ok v in
    let same : bucket_index our_id id ≡ bucket_index t.our_id id =
      ap (λ u. bucket_index u id) (sym s.ours) in
    set_bucket-IsSound our_id t (bucket_index t.our_id id) b s
      (subst (λ i. i < num_buckets) same lt)
      (subst (λ i. Fits our_id i b) same
        (f (
          subst (λ i. Fits our_id (bucket_index our_id id) (bucket_at t i)) same
            (s.fits (bucket_index our_id id) lt))))

Step-IsSound :
    (our_id : NodeId) {t t' : RoutingTable}
    → IsId our_id
    → IsSound our_id t
    → Step t t'
    → IsSound our_id t'
unfolding add_node remove_node mark_failed mark_seen
Step-IsSound our_id {t} ok s (adds now node v) = elim (Bool-cases (same_bytes node.id t.our_id)) [
  | inl e ↦ rw e s
  | inr e ↦ rw e (
      replaced our_id t node.id _ ok v s (λ f. (
        add-IsSized now _ node f.0,
        add-Holds (Belongs our_id _) now _ node (touch-Belongs our_id _ now)
            (record {
              valid = v;
              place = refl;
              foreign = subst (λ u. same_bytes node.id u ≡ false) s.ours e;
            })
            f.1,
      )))
]
Step-IsSound our_id {t} ok s (removes id v) =
    replaced our_id t id _ ok v s (remove-Fits our_id _ _ id)
Step-IsSound our_id {t} ok s (fails now id v) =
    let bucket = bucket_at t (bucket_index t.our_id id) in
    elim (Option-cases (get bucket id)) [
      | inl e ↦ rw (e, mark_failed) s
      | inr (node, e) ↦
          rw (e, mark_failed)
            (replaced our_id t id _ ok v s (λ f.
              let changed = change-Fits our_id _ bucket id fail (fail-Belongs our_id _) f in
              elim (Bool-cases (is_bad now (fail node))) [
                | inl bad ↦ rw bad (remove-Fits our_id _ (change bucket id fail) id changed)
                | inr fine ↦ rw fine changed
              ]))
    ]
Step-IsSound our_id {t} ok s (sees now id v) =
    replaced our_id t id _ ok v s
      (change-Fits our_id _ _ id (touch now) (touch-Belongs our_id _ now))

-- After any sequence of operations, on identifiers of twenty bytes, the table is sound.
pub Reachable-keeps_buckets :
    (our_id : NodeId) {t : RoutingTable} → IsId our_id → Reachable our_id t → IsSound our_id t
Reachable-keeps_buckets our_id ok begins = new-IsSound our_id
Reachable-keeps_buckets our_id ok (goes_on r step) =
    Step-IsSound our_id ok (Reachable-keeps_buckets our_id ok r) step
