-- ===== src/Tracker/Udp/Answers.antt =====
-- Which answers of a UDP tracker are taken, and what is read from them.
use rbitt.Prelude.{
  ℕ, zero, suc, ◌+◌, ◌*◌, ◌%◌, ◌/◌, ◌^◌, ◌<◌, ◌≤◌, ◌≡◌, refl, sym, ap, ◌∙◌, min, inl, inr,
  Bool-cases, none, some, List, [], ◌∷◌, ◌++◌, Bytes, IsByte, All, ltb, ◌↔◌, length, replicate,
  arith,
}
use rbitt.Peer.Wire.{put_u32, get_u32, length-get_u32, get_u32-bounds, put_u32-get_u32}
use rbitt.Tracker.Response.{AnnounceResponse, ok, from_compact_v4}
use rbitt.Tracker.Udp.{
  parse_announce_response, scrape_files, Outcome, received, failed, silent, announce_loop,
}

-- A scrape answer tells of as many hashes as it has room for.
scrape_files-length :
    (hashes : List Bytes) (cursor : Bytes)
    → length (scrape_files hashes cursor) ≡ min (length hashes) (length cursor / 12)
unfolding scrape_files
scrape_files-length [] cursor = omega arith
scrape_files-length (hash ∷ hashes) cursor = elim (Bool-cases (ltb (length cursor) 12)) [
  | inl e ↦ rw e (ground arith)
  | inr e ↦
      let a = length-get_u32 cursor (ground arith) in
      let b = length-get_u32 (get_u32 cursor).1 (ground (arith, a)) in
      let c = length-get_u32 (get_u32 (get_u32 cursor).1).1 (ground (arith, a, b)) in
      let rest = scrape_files-length hashes (get_u32 (get_u32 (get_u32 cursor).1).1).1 in
      rw e (omega (arith, a, b, c, rest))
]

-- An announcement as BEP 15 lays it out.
abbrev pub packet : ℕ → ℕ → ℕ → ℕ → Bytes → Bytes
packet transaction_id interval leechers seeders compact =
    put_u32 1
    ++ (put_u32 transaction_id
        ++ (put_u32 interval ++ (put_u32 leechers ++ (put_u32 seeders ++ compact))))

-- What it tells.
abbrev pub announced : ℕ → ℕ → ℕ → Bytes → AnnounceResponse
announced interval leechers seeders compact = record {
  interval = interval;
  min_interval = none;
  complete = some seeders;
  incomplete = some leechers;
  peers = from_compact_v4 compact;
  peers6 = [];
  warning_message = none;
  tracker_id = none;
}

-- The bytes are an announcement for the transaction, and `r` is what it tells.
pub record Tells (transaction_id : ℕ) (bytes : Bytes) (r : AnnounceResponse) : Type 0 where
  pub interval : ℕ
  pub leechers : ℕ
  pub seeders : ℕ
  pub compact : Bytes
  pub small : (interval < 2 ^ 32) × (leechers < 2 ^ 32) × (seeders < 2 ^ 32)
  pub laid_out : bytes ≡ packet transaction_id interval leechers seeders compact
  pub read : r ≡ announced interval leechers seeders compact

-- One of the allowed attempts is answered so, and all attempts before it stay silent.
pub record Answered (retries : ℕ) (outcomes : List Outcome) (transaction_id : ℕ)
    (r : AnnounceResponse) : Type 0 where
  pub attempt : ℕ
  pub in_time : attempt < retries
  pub answer : Bytes
  pub later : List Outcome
  pub comes : outcomes ≡ replicate attempt silent ++ (received answer ∷ later)
  pub tells : Tells transaction_id answer r

-- The bytes of what is received.
abbrev pub AreBytes : Outcome → Type 0
AreBytes (received bytes) = All IsByte bytes
AreBytes failed = Unit
AreBytes silent = Unit

Tells-parse_announce_response :
    (bytes : Bytes) (t : ℕ) {r : AnnounceResponse}
    → All IsByte bytes
    → parse_announce_response bytes t ≡ ok r
    → Tells t bytes r
unfolding parse_announce_response
Tells-parse_announce_response bytes t {r} all e =
    let long : 20 ≤ length bytes = ground (arith, e) in
    let b0 = get_u32-bounds bytes all in
    let l0 = length-get_u32 bytes (omega (arith, long)) in
    let r0 = (get_u32 bytes).1 in
    let b1 = get_u32-bounds r0 b0.1 in
    let l1 = length-get_u32 r0 (omega (arith, long, l0)) in
    let r1 = (get_u32 r0).1 in
    let b2 = get_u32-bounds r1 b1.1 in
    let l2 = length-get_u32 r1 (omega (arith, long, l0, l1)) in
    let r2 = (get_u32 r1).1 in
    let b3 = get_u32-bounds r2 b2.1 in
    let l3 = length-get_u32 r2 (omega (arith, long, l0, l1, l2)) in
    let r3 = (get_u32 r2).1 in
    let b4 = get_u32-bounds r3 b3.1 in
    let ours : (get_u32 r0).0 ≡ t = ground (arith, e, long) in
    let announces : (get_u32 bytes).0 ≡ 1 = ground (arith, e, long) in
    let h0 = put_u32-get_u32 bytes all (omega (arith, long)) in
    let h1 = put_u32-get_u32 r0 b0.1 (omega (arith, long, l0)) in
    let h2 = put_u32-get_u32 r1 b1.1 (omega (arith, long, l0, l1)) in
    let h3 = put_u32-get_u32 r2 b2.1 (omega (arith, long, l0, l1, l2)) in
    let h4 = put_u32-get_u32 r3 b3.1 (omega (arith, long, l0, l1, l2, l3)) in
    let told = announced (get_u32 r1).0 (get_u32 r2).0 (get_u32 r3).0 (get_u32 r3).1 in
    let computed : parse_announce_response bytes t ≡ ok told =
      ground (arith, long, ours, announces) in
    record {
      interval = (get_u32 r1).0;
      leechers = (get_u32 r2).0;
      seeders = (get_u32 r3).0;
      compact = (get_u32 r3).1;
      small = (b2.0, b3.0, b4.0);
      laid_out =
          sym h0
          ∙ ap (λ n. put_u32 n ++ r0) announces
          ∙ ap (λ rest. put_u32 1 ++ rest)
              (sym h1
                ∙ ap (λ n. put_u32 n ++ r1) ours
                ∙ ap (λ rest. put_u32 t ++ rest)
                    (sym h2
                      ∙ ap (λ rest. put_u32 (get_u32 r1).0 ++ rest)
                          (sym h3 ∙ ap (λ rest. put_u32 (get_u32 r2).0 ++ rest) (sym h4))));
      read = cc;
    }

joined :
    (n : ℕ)
    → n < 2 ^ 32
    → n / 2 ^ 24 % 256 * 2 ^ 24 + n / 2 ^ 16 % 256 * 2 ^ 16 + n / 2 ^ 8 % 256 * 2 ^ 8 + n % 256 ≡ n
joined n h = omega (arith, h)

-- A packet is read as what it tells.
parse_announce_response-packet :
    (t interval leechers seeders : ℕ) (compact : Bytes)
    → t < 2 ^ 32
    → interval < 2 ^ 32
    → leechers < 2 ^ 32
    → seeders < 2 ^ 32
    → parse_announce_response (packet t interval leechers seeders compact) t
      ≡ ok (announced interval leechers seeders compact)
unfolding parse_announce_response get_u32
parse_announce_response-packet t interval leechers seeders compact a b c d =
    let ours = joined t a in
    let first = joined interval b in
    let second = joined leechers c in
    let third = joined seeders d in ground (arith, ours, first, second, third)

announce_loop-parsed :
    (n t : ℕ) (bytes : Bytes) (r : AnnounceResponse) (later : List Outcome)
    → parse_announce_response bytes t ≡ ok r
    → announce_loop (suc n) (received bytes ∷ later) t ≡ ok r
unfolding announce_loop parse_announce_response
announce_loop-parsed n t bytes r later parsed = ground (arith, parsed)

parse_announce_response-Tells :
    (t : ℕ) (bytes : Bytes) (r : AnnounceResponse)
    → t < 2 ^ 32
    → Tells t bytes r
    → parse_announce_response bytes t ≡ ok r
parse_announce_response-Tells t bytes r small v =
    ap (λ b. parse_announce_response b t) v.laid_out
    ∙ parse_announce_response-packet t v.interval v.leechers v.seeders v.compact small v.small.0
        v.small.1 v.small.2
    ∙ ap ok (sym v.read)

answered-announce_loop :
    (k retries t : ℕ) (bytes : Bytes) (r : AnnounceResponse) (later : List Outcome)
    → k < retries
    → t < 2 ^ 32
    → Tells t bytes r
    → announce_loop retries (replicate k silent ++ (received bytes ∷ later)) t ≡ ok r
unfolding announce_loop
answered-announce_loop k zero t bytes r later h small v = absurd (omega (arith, h))
answered-announce_loop zero (suc n) t bytes r later h small v =
    announce_loop-parsed n t bytes r later (parse_announce_response-Tells t bytes r small v)
answered-announce_loop (suc k) (suc n) t bytes r later h small v =
    answered-announce_loop k n t bytes r later (omega (arith, h)) small v

Answered-announce_loop :
    (retries : ℕ) (outcomes : List Outcome) (t : ℕ) (r : AnnounceResponse)
    → All AreBytes outcomes
    → announce_loop retries outcomes t ≡ ok r
    → Answered retries outcomes t r
unfolding announce_loop
Answered-announce_loop zero outcomes t r all e = cc
Answered-announce_loop (suc n) [] t r all e = cc
Answered-announce_loop (suc n) (received bytes ∷ outcomes) t r all e =
    let parsed : parse_announce_response bytes t ≡ ok r = ground (arith, e) in
    record {
      attempt = 0;
      in_time = omega arith;
      answer = bytes;
      later = outcomes;
      comes = refl;
      tells = Tells-parse_announce_response bytes t all.0 parsed;
    }
Answered-announce_loop (suc n) (failed ∷ outcomes) t r all e = cc
Answered-announce_loop (suc n) (silent ∷ outcomes) t r all e =
    let further = Answered-announce_loop n outcomes t r all.1 e in
    record {
      attempt = suc further.attempt;
      in_time = omega (arith, further.in_time);
      answer = further.answer;
      later = further.later;
      comes = ap (λ rest. silent ∷ rest) further.comes;
      tells = further.tells;
    }

-- The retry loop of `announce` gives `r` exactly where one of the allowed attempts is answered by an
-- announcement for our transaction that tells `r`, and all attempts before it stay silent. What is
-- received are bytes, and the transaction has 32 bits.
pub announce_loop_iff :
    (retries : ℕ) (outcomes : List Outcome) (t : ℕ) (r : AnnounceResponse)
    → t < 2 ^ 32
    → All AreBytes outcomes
    → (announce_loop retries outcomes t ≡ ok r) ↔ Answered retries outcomes t r
announce_loop_iff retries outcomes t r small all = (
  λ e. Answered-announce_loop retries outcomes t r all e,
  λ v.
      ap (λ o. announce_loop retries o t) v.comes
      ∙ answered-announce_loop v.attempt retries t v.answer r v.later v.in_time small v.tells,
)
