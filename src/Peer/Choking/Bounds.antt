-- ===== src/Peer/Choking/Bounds.antt =====
-- A run unchokes at most as many peers as there are places.
use rbitt.Prelude.{
  ℕ, zero, suc, ◌+◌, ◌-◌, ◌≤◌, ◌≡◌, ◌⊎◌, ◌%◌, refl, inl, inr, Bool-cases, Option-cases, Bool, not,
  ◌&&◌, Option, none, some, List, [], ◌∷◌, ltb, leb, ◌==◌, if◌then◌else◌, length, arith,
}
use rbitt.Prelude.Search.{keep}
use rbitt.Prelude.Sort.{sort}
use rbitt.Net.{SocketAddr}
use rbitt.Peer.Choking.{
  max_unchoked, unchoke_interval, optimistic_unchoke_interval, choke, unchoke, Decisions, at_addr,
  put_addr, is_unchoke, ChokingAlgorithm, is_other, Peers, all_unchanged, comes_first, decide,
  candidates, retire, pick, rotate_optimistic, keep_optimistic, run,
}

-- How many peers are to be unchoked.
unfoldable pub unchokes : Decisions → ℕ
unfolding is_unchoke
unchokes [] = 0
unchokes ((addr, d) ∷ decisions) =
    let rest = unchokes decisions in if is_unchoke (some d) then suc rest else rest

unchokes-put_addr :
    (addr : SocketAddr) (ds : Decisions) → unchokes (put_addr addr unchoke ds) ≤ suc (unchokes ds)
unfolding unchokes put_addr is_unchoke
unchokes-put_addr addr [] = omega arith
unchokes-put_addr addr ((a, d) ∷ ds) = ground (arith, unchokes-put_addr addr ds)

put_choke : (addr : SocketAddr) (ds : Decisions) → unchokes (put_addr addr choke ds) ≤ unchokes ds
unfolding unchokes put_addr is_unchoke
put_choke addr [] = omega arith
put_choke addr ((a, d) ∷ ds) = ground (arith, put_choke addr ds)

addresses-cases :
    (l : List SocketAddr)
    → (l ≡ []) ⊎ ((first : SocketAddr) × (others : List SocketAddr) × (l ≡ first ∷ others))
addresses-cases [] = inl refl
addresses-cases (first ∷ others) = inr (first, others, refl)

module _ (Rate : Type 0) (faster : Rate → Rate → Bool) where
  unchokes-all_unchanged :
      (peers : Peers Rate faster) → unchokes (all_unchanged Rate faster peers) ≡ 0
  unfolding unchokes all_unchanged is_unchoke
  unchokes-all_unchanged [] = refl
  unchokes-all_unchanged ((addr, stats) ∷ peers) = unchokes-all_unchanged peers

  unchokes-decide :
      (optimistic : Option SocketAddr) (left : ℕ) (peers : Peers Rate faster) (ds : Decisions)
      → unchokes (decide Rate faster optimistic left peers ds) ≤ left + unchokes ds
  unfolding decide
  unchokes-decide optimistic left [] ds = omega arith
  unchokes-decide optimistic zero ((addr, stats) ∷ peers) ds =
      elim (Bool-cases (is_other addr optimistic && not stats.is_choked_by_us)) [
        | inl e ↦ rw e (
            omega (
              arith,
              put_choke addr ds,
              unchokes-decide optimistic zero peers (put_addr addr choke ds),
            ))
        | inr e ↦ rw e (unchokes-decide optimistic zero peers ds)
      ]
  unchokes-decide optimistic (suc left) ((addr, stats) ∷ peers) ds =
      elim (Bool-cases (stats.is_choked_by_us)) [
        | inl e ↦ rw e (
            omega (
              arith,
              unchokes-put_addr addr ds,
              unchokes-decide optimistic left peers (put_addr addr unchoke ds),
            ))
        | inr e ↦ rw e (omega (arith, unchokes-decide optimistic left peers ds))
      ]

  unchokes-retire :
      (old : Option SocketAddr) (peers : Peers Rate faster) (ds : Decisions)
      → unchokes (retire Rate faster old peers ds) ≤ unchokes ds
  unfolding retire
  unchokes-retire none peers ds = omega arith
  unchokes-retire (some old) peers ds = elim (Option-cases (at_addr old peers)) [
    | inl e ↦ rw (e, retire) (omega arith)
    | inr (stats, e) ↦
        elim (Bool-cases (not stats.is_choked_by_us && not (is_unchoke (at_addr old ds)))) [
          | inl f ↦ rw (e, retire, f) (put_choke old ds)
          | inr f ↦ rw (e, retire, f) (omega arith)
        ]
  ]

  rotate_unchokes :
      (random : ℕ) (c : ChokingAlgorithm) (peers : Peers Rate faster) (ds : Decisions)
      → unchokes (rotate_optimistic Rate faster random c peers ds).1 ≤ suc (unchokes ds)
  unfolding rotate_optimistic
  rotate_unchokes random c peers ds = elim (addresses-cases (candidates Rate faster peers)) [
    | inl e ↦ rw (e, rotate_optimistic) (omega (arith, unchokes-retire c.optimistic_peer peers ds))
    | inr (first, others, e) ↦
        rw (e, rotate_optimistic)
          (omega (
            arith,
            unchokes-retire c.optimistic_peer peers ds,
            unchokes-put_addr (pick Rate faster (random % suc (length others)) first others)
                (retire Rate faster c.optimistic_peer peers ds),
          ))
  ]

  keep_unchokes :
      (random : ℕ) (c : ChokingAlgorithm) (peers : Peers Rate faster) (ds : Decisions)
      → unchokes (keep_optimistic Rate faster random c peers ds).1 ≤ suc (unchokes ds)
  unfolding keep_optimistic
  keep_unchokes random c peers ds = elim (Option-cases (c.optimistic_peer)) [
    | inl e ↦ rw (e, keep_optimistic) (omega arith)
    | inr (opt, e) ↦ elim (Option-cases (at_addr opt peers)) [
      | inl f ↦ rw (e, keep_optimistic, f) (rotate_unchokes random c peers ds)
      | inr (stats, f) ↦ elim (Bool-cases (stats.is_choked_by_us)) [
        | inl g ↦ rw (e, keep_optimistic, f, g) (unchokes-put_addr opt ds)
        | inr g ↦ rw (e, keep_optimistic, f, g) (omega arith)
      ]
    ]
  ]

  -- A run of the algorithm unchokes at most eight peers.
  pub unchokes-run :
      (now random : ℕ) (c : ChokingAlgorithm) (peers : Peers Rate faster)
      → unchokes (run Rate faster now random c peers).1 ≤ max_unchoked
  unfolding run
  unchokes-run now random c peers =
      let start = all_unchanged Rate faster peers in
      let none_yet = unchokes-all_unchanged peers in
      let started = record c { last_unchoke = now } in
      let interested = keep (λ p. (p.1).is_interested) peers in
      let ranked = sort (comes_first Rate faster c.we_are_seeding) interested in
      let decided = decide Rate faster c.optimistic_peer 7 ranked start in
      let seven = unchokes-decide c.optimistic_peer 7 ranked start in
      elim (Bool-cases (ltb (now - c.last_unchoke) unchoke_interval)) [
        | inl e ↦ rw e (omega (arith, none_yet))
        | inr e ↦ elim (Bool-cases (length interested == 0)) [
          | inl f ↦ rw (e, f) (omega (arith, none_yet))
          | inr f ↦ elim (Bool-cases (leb optimistic_unchoke_interval (now - c.last_optimistic))) [
            | inl g ↦
                rw (e, f, g)
                  (omega (
                    arith,
                    none_yet,
                    seven,
                    rotate_unchokes random (record started { last_optimistic = now }) peers decided,
                  ))
            | inr g ↦
                rw (e, f, g)
                  (omega (arith, none_yet, seven, keep_unchokes random started peers decided))
          ]
        ]
      ]
