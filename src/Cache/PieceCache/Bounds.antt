-- ===== src/Cache/PieceCache/Bounds.antt =====
-- The bounds of the piece cache, which every operation keeps.
use rbitt.Prelude.{
  ℕ, ◌+◌, ◌-◌, ◌^◌, ◌≤◌, ◌<◌, ◌≡◌, subst, inl, inr, Option-cases, Bool-cases, Bool, not, ◌&&◌, ◌||◌,
  none, some, ltb, ◌==◌, length, arith,
}
use rbitt.Cache.Key.{CacheKey}
use rbitt.Cache.Lru
use rbitt.Cache.Lru.{LruList, CachedPiece, size, pop_front}
use rbitt.Cache.Lru.Sizes.{weight, Covered, Taken, Popped, pop_front-Popped}
use rbitt.Cache.Ghost
use rbitt.Cache.PieceCache.{PieceCache, sub64, evict_t1, evict_t2, drop_t1, replace}

-- The pieces of both lists, and their bytes.
abbrev pub held : PieceCache → ℕ
held c = length c.t1.entries + length c.t2.entries

abbrev pub held_bytes : PieceCache → ℕ
held_bytes c = weight c.t1 + weight c.t2

-- There are at most as many pieces as the capacity says; `memory_used` is at least the number of
-- bytes held; the target `p` does not exceed the capacity; and every piece is found when its list is
-- searched for one to evict.
pub record IsSound (c : PieceCache) : Type 0 where
  pub positive : 0 < c.capacity
  pub few : held c ≤ c.capacity
  pub counted : held_bytes c ≤ c.memory_used
  pub counter : c.memory_used < 2 ^ 64
  pub target : c.p ≤ c.capacity
  pub covered1 : Covered c.t1
  pub covered2 : Covered c.t2

-- The same, with room for one more piece, and a `memory_used` of at most `m`.
pub record HasRoom (m : ℕ) (c : PieceCache) : Type 0 where
  pub sound : IsSound c
  pub room : held c < c.capacity
  pub used : c.memory_used ≤ m

pub sub64-eq : (a b : ℕ) → b ≤ a → a < 2 ^ 64 → sub64 a b ≡ a - b
sub64-eq a b h s = omega arith

-- `t1` without the piece that `pop_front` gives.
pub shrunk1 :
    (c : PieceCache) (l : LruList) (ghosts : Ghost.GhostList) (piece : CachedPiece)
    → IsSound c
    → Taken (length c.t1.entries) (weight c.t1) l piece
    → HasRoom c.memory_used
        (record c { t1 = l; b1 = ghosts; memory_used = sub64 c.memory_used (size piece) })
shrunk1 c l ghosts piece s t =
    let e = sub64-eq c.memory_used (size piece) (omega (arith, t.1, s.counted)) s.counter in
    record {
      sound = record {
        positive = s.positive;
        few = omega (arith, t.0, s.few);
        counted = omega (arith, t.1, s.counted, e);
        counter = omega (arith, e, s.counter);
        target = s.target;
        covered1 = t.2;
        covered2 = s.covered2;
      };
      room = omega (arith, t.0, s.few);
      used = omega (arith, e);
    }

pub shrunk2 :
    (c : PieceCache) (l : LruList) (ghosts : Ghost.GhostList) (piece : CachedPiece)
    → IsSound c
    → Taken (length c.t2.entries) (weight c.t2) l piece
    → HasRoom c.memory_used
        (record c { t2 = l; b2 = ghosts; memory_used = sub64 c.memory_used (size piece) })
shrunk2 c l ghosts piece s t =
    let e = sub64-eq c.memory_used (size piece) (omega (arith, t.1, s.counted)) s.counter in
    record {
      sound = record {
        positive = s.positive;
        few = omega (arith, t.0, s.few);
        counted = omega (arith, t.1, s.counted, e);
        counter = omega (arith, e, s.counter);
        target = s.target;
        covered1 = s.covered1;
        covered2 = t.2;
      };
      room = omega (arith, t.0, s.few);
      used = omega (arith, e);
    }

popped-some :
    (l : LruList) (evicted : CacheKey × CachedPiece)
    → Covered l
    → (pop_front l).1 ≡ some evicted
    → Taken (length l.entries) (weight l) (pop_front l).0 evicted.1
popped-some l evicted c e =
    subst (λ r. Popped (length l.entries) (weight l) (pop_front l).0 r) e (pop_front-Popped l c)

popped-none :
    (l : LruList)
    → Covered l
    → (pop_front l).1 ≡ none
    → (length l.entries ≡ 0)
      × (length (pop_front l).0.entries ≡ 0)
      × (weight (pop_front l).0 ≡ 0)
      × Covered (pop_front l).0
popped-none l c e =
    subst (λ r. Popped (length l.entries) (weight l) (pop_front l).0 r) e (pop_front-Popped l c)

evict_t1-HasRoom :
    (c : PieceCache) → IsSound c → 0 < length c.t1.entries → HasRoom c.memory_used (evict_t1 c)
unfolding evict_t1
evict_t1-HasRoom c s h = elim (Option-cases (pop_front c.t1).1) [
  | inl e ↦ absurd (omega (arith, h, (popped-none c.t1 s.covered1 e).0))
  | inr (evicted, e) ↦
      rw (e, evict_t1)
        (shrunk1 c (pop_front c.t1).0 (Ghost.insert c.b1 evicted.0) evicted.1 s
          (popped-some c.t1 evicted s.covered1 e))
]

pub drop_t1-HasRoom :
    (c : PieceCache) → IsSound c → 0 < length c.t1.entries → HasRoom c.memory_used (drop_t1 c)
unfolding drop_t1
drop_t1-HasRoom c s h = elim (Option-cases (pop_front c.t1).1) [
  | inl e ↦ absurd (omega (arith, h, (popped-none c.t1 s.covered1 e).0))
  | inr (evicted, e) ↦
      rw (e, drop_t1)
        (shrunk1 c (pop_front c.t1).0 c.b1 evicted.1 s (popped-some c.t1 evicted s.covered1 e))
]

evict_t2-HasRoom :
    (c : PieceCache)
    → IsSound c
    → (length c.t2.entries ≡ 0 → length c.t1.entries ≡ 0)
    → HasRoom c.memory_used (evict_t2 c)
unfolding evict_t2
evict_t2-HasRoom c s h = elim (Option-cases (pop_front c.t2).1) [
  | inl e ↦
      let gone = popped-none c.t2 s.covered2 e in
      let empty = h gone.0 in
      rw (e, evict_t2)
        (record {
          sound = record {
            positive = s.positive;
            few = omega (arith, gone.1, empty);
            counted = omega (arith, gone.2, s.counted);
            counter = s.counter;
            target = s.target;
            covered1 = s.covered1;
            covered2 = gone.3;
          };
          room = omega (arith, gone.1, empty, s.positive);
          used = omega arith;
        })
  | inr (evicted, e) ↦
      rw (e, evict_t2)
        (shrunk2 c (pop_front c.t2).0 (Ghost.insert c.b2 evicted.0) evicted.1 s
          (popped-some c.t2 evicted s.covered2 e))
]

-- A replacement makes room.
pub replace-HasRoom :
    (c : PieceCache) (in_b2 : Bool) → IsSound c → HasRoom c.memory_used (replace c in_b2)
unfolding replace Lru.entry_count
replace-HasRoom c in_b2 s =
    elim (Bool-cases (
      ltb 0 (length c.t1.entries)
      && ((in_b2 && length c.t1.entries == c.p)
          || ((not in_b2 && ltb c.p (length c.t1.entries)) || length c.t2.entries == 0)))) [
            | inl e ↦ rw e (evict_t1-HasRoom c s (ground arith))
            | inr e ↦ rw e (evict_t2-HasRoom c s (λ h. ground arith))
          ]
