-- ===== src/Dht/Routing/Closest.antt =====
-- `find_closest`: the good nodes nearest to a target.
use mathlib.Core.List.{Perm}
use rbitt.Prelude.{
  ℕ, ◌≡◌, ◌∙◌, sym, ap, subst, List, ◌++◌, All, length, take, drop, take-drop, length-take, min,
}
use rbitt.Prelude.Lex.{lex_lt-asym, lex_lt-above}
use rbitt.Prelude.Sort.{sort, Sorted, AllAbove, sort-Perm, length-sort, sort-Sorted, Sorted-take}
use rbitt.Dht.Node.{NodeId, Node, distance}
use rbitt.Dht.Bucket.{good_nodes}
use rbitt.Dht.Routing.{RoutingTable, gather, nearer, find_closest}

-- The good nodes of all buckets.
abbrev pub candidates : ℕ → RoutingTable → List Node
candidates now t = gather (good_nodes now) t.buckets

-- `find_closest` splits the good nodes of the table in two: those it gives, `count` of them or all
-- where there are fewer, in the order of their distance from the target, and the others, of which
-- none is nearer to the target than any that it gives.
pub find_closest-nearest :
    (now : ℕ) (t : RoutingTable) (target : NodeId) (count : ℕ)
    → (others : List Node) × Perm (find_closest now t target count ++ others) (candidates now t)
      × Sorted (nearer target) (find_closest now t target count)
      × All (λ n. AllAbove (nearer target) n others) (find_closest now t target count)
      × (length (find_closest now t target count) ≡ min count (length (candidates now t)))
unfolding find_closest
find_closest-nearest now t target count =
    let all = candidates now t in
    let sorted = sort (nearer target) all in
    let cut = Sorted-take (nearer target) count sorted (
      sort-Sorted (nearer target) (λ a b. lex_lt-asym (distance a.id target) (distance b.id target))
        (λ a b c. lex_lt-above (distance a.id target) (distance b.id target) (distance c.id target))
        all) in
    let together : Perm (take count sorted ++ drop count sorted) all =
      subst (λ l. Perm l all) (sym (take-drop count sorted)) (sort-Perm (nearer target) all) in
    (
      drop count sorted,
      together,
      cut.0,
      cut.1,
      length-take count sorted ∙ ap (min count) (length-sort (nearer target) all),
    )
