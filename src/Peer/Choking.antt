-- ===== src/Peer/Choking.antt =====
-- src-tauri/crates/oxidebt-peer/src/choking.rs: which peers are to be choked and unchoked. A rate is a
-- value of a type `Rate` with a Boolean order, for the floating-point numbers of the source and their
-- `partial_cmp`; a point in time is a number of seconds. A hash map is the list of its entries in the
-- order in which it is walked, and the random index of a candidate is an argument.
pub mod Bounds
mod Tests
use rbitt.Prelude.{
  ℕ, zero, suc, ◌+◌, ◌-◌, ◌%◌, Bool, true, false, not, ◌&&◌, ◌||◌, Option, none, some, List, [],
  ◌∷◌, ltb, leb, ◌==◌, if◌then◌else◌, length, take, drop,
}
use rbitt.Prelude.Search.{keep}
use rbitt.Prelude.Sort.{sort}
use rbitt.Net.{SocketAddr, same_addr}

abbrev pub unchoke_interval : ℕ
unchoke_interval = 10

abbrev pub optimistic_unchoke_interval : ℕ
optimistic_unchoke_interval = 30

abbrev pub max_unchoked : ℕ
max_unchoked = 8

pub data ChokingDecision : Type 0 where
  choke : ChokingDecision
  unchoke : ChokingDecision
  no_change : ChokingDecision

abbrev pub Decisions : Type 0
Decisions = List (SocketAddr × ChokingDecision)

-- `HashMap::get` and `HashMap::insert` with an address as the key.
unfoldable pub at_addr {ℓ} : {A : Type ℓ} → SocketAddr → List (SocketAddr × A) → Option A
at_addr addr [] = none
at_addr addr ((a, x) ∷ m) = if same_addr a addr then some x else at_addr addr m

unfoldable pub put_addr {ℓ} :
    {A : Type ℓ} → SocketAddr → A → List (SocketAddr × A) → List (SocketAddr × A)
put_addr addr x [] = (addr, x) ∷ []
put_addr addr x ((a, y) ∷ m) =
    let rest = put_addr addr x m in if same_addr a addr then (addr, x) ∷ m else (a, y) ∷ rest

unfoldable pub is_unchoke : Option ChokingDecision → Bool
is_unchoke (some unchoke) = true
is_unchoke _ = false

pub record ChokingAlgorithm : Type 0 where
  pub last_unchoke : ℕ
  pub last_optimistic : ℕ
  pub optimistic_peer : Option SocketAddr
  pub we_are_seeding : Bool

unfoldable pub new : ℕ → ChokingAlgorithm
new now = record {
  last_unchoke = now;
  last_optimistic = now;
  optimistic_peer = none;
  we_are_seeding = false;
}

unfoldable pub set_seeding : ChokingAlgorithm → Bool → ChokingAlgorithm
set_seeding c seeding = record c { we_are_seeding = seeding }

-- `Some(addr) != self.optimistic_peer`
unfoldable pub is_other : SocketAddr → Option SocketAddr → Bool
is_other addr none = true
is_other addr (some a) = not (same_addr addr a)

module _ (Rate : Type 0) (faster : Rate → Rate → Bool) where
  pub record PeerStats : Type 0 where
    pub download_rate : Rate
    pub upload_rate : Rate
    pub is_interested : Bool
    pub is_choking_us : Bool
    pub is_choked_by_us : Bool
    pub last_received : ℕ
    pub is_seed : Bool

  abbrev pub Peers : Type 0
  Peers = List (SocketAddr × PeerStats)

  unfoldable pub all_unchanged : Peers → Decisions
  all_unchanged [] = []
  all_unchanged ((addr, stats) ∷ peers) = (addr, no_change) ∷ all_unchanged peers

  -- The order of the sort: the faster peer first.
  unfoldable pub comes_first : Bool → SocketAddr × PeerStats → SocketAddr × PeerStats → Bool
  comes_first seeding a b =
      if seeding
      then faster (a.1).upload_rate (b.1).upload_rate
      else faster (a.1).download_rate (b.1).download_rate

  -- The loop over the interested peers, with `left` the number of regular places that are left.
  unfoldable pub decide : Option SocketAddr → ℕ → Peers → Decisions → Decisions
  decide optimistic left [] decisions = decisions
  decide optimistic zero ((addr, stats) ∷ peers) decisions = decide optimistic zero peers (
      if is_other addr optimistic && not stats.is_choked_by_us
      then put_addr addr choke decisions
      else decisions)
  decide optimistic (suc left) ((addr, stats) ∷ peers) decisions =
      decide optimistic left peers
        (if stats.is_choked_by_us then put_addr addr unchoke decisions else decisions)

  unfoldable pub candidates : Peers → List SocketAddr
  candidates [] = []
  candidates ((addr, stats) ∷ peers) =
      let rest = candidates peers in
      if stats.is_interested && stats.is_choked_by_us then addr ∷ rest else rest

  -- What `rotate_optimistic` decides about the peer that it replaces.
  unfoldable pub retire : Option SocketAddr → Peers → Decisions → Decisions
  retire none peers decisions = decisions
  retire (some old) peers decisions = elim (at_addr old peers) [
    | none ↦ decisions
    | some stats ↦
        if not stats.is_choked_by_us && not (is_unchoke (at_addr old decisions))
        then put_addr old choke decisions
        else decisions
  ]

  -- `candidates[idx]`, for an index below the length
  unfoldable pub pick : ℕ → SocketAddr → List SocketAddr → SocketAddr
  pick idx first [] = first
  pick zero first (a ∷ rest) = first
  pick (suc idx) first (a ∷ rest) = pick idx a rest

  unfoldable pub rotate_optimistic :
      ℕ → ChokingAlgorithm → Peers → Decisions → ChokingAlgorithm × Decisions
  unfolding retire candidates pick
  rotate_optimistic random c peers decisions =
      let retired = retire c.optimistic_peer peers decisions in
      elim (candidates peers) [
        | [] ↦ (record c { optimistic_peer = none }, retired)
        | first ∷ others ↦
            let new_opt = pick (random % suc (length others)) first others in
            (record c { optimistic_peer = some new_opt }, put_addr new_opt unchoke retired)
      ]

  -- The optimistic peer stays, unless it is gone.
  unfoldable pub keep_optimistic :
      ℕ → ChokingAlgorithm → Peers → Decisions → ChokingAlgorithm × Decisions
  unfolding rotate_optimistic
  keep_optimistic random c peers decisions = elim (c.optimistic_peer) [
    | none ↦ (c, decisions)
    | some opt_addr ↦ elim (at_addr opt_addr peers) [
      | none ↦ rotate_optimistic random c peers decisions
      | some stats ↦
          (c, if stats.is_choked_by_us then put_addr opt_addr unchoke decisions else decisions)
    ]
  ]

  unfoldable pub run : ℕ → ℕ → ChokingAlgorithm → Peers → ChokingAlgorithm × Decisions
  unfolding all_unchanged comes_first decide rotate_optimistic keep_optimistic
  run now random c peers =
      let decisions = all_unchanged peers in
      let started = record c { last_unchoke = now } in
      let interested = keep (λ p. (p.1).is_interested) peers in
      let ranked = sort (comes_first c.we_are_seeding) interested in
      let decided = decide c.optimistic_peer (max_unchoked - 1) ranked decisions in
      let rotated =
        rotate_optimistic random (record started { last_optimistic = now }) peers decided in
      let kept = keep_optimistic random started peers decided in
      if ltb (now - c.last_unchoke) unchoke_interval
      then (c, decisions)
      else if length interested == 0
      then (started, decisions)
      else if leb optimistic_unchoke_interval (now - c.last_optimistic)
      then rotated
      else kept
