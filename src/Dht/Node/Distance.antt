-- ===== src/Dht/Node/Distance.antt =====
-- The bucket of an identifier is the number of leading bits that it shares with ours.
use Prim.Native.Nat.{bit_xor}
use rbitt.Prelude.{
  ℕ, zero, suc, ◌+◌, ◌-◌, ◌*◌, ◌/◌, ◌%◌, ◌<◌, ◌≡◌, refl, sym, ap, ◌∙◌, ◌≢◌, ◌⊎◌, inl, inr, Bool,
  true, false, not, [], ◌∷◌, Bytes, IsByte, All, ltb, if◌then◌else◌, Bool-cases, length, get_or,
  All-get_or, ltb→lt, arith,
}
use rbitt.Prelude.Bits.{
  test_bit, leading_zeros, leading_zeros-lt, test_bit-leading_zeros, test_bit-before_leading,
  test_bit-zero,
}
use rbitt.Prelude.Xor.{bit_xor-lt, test_bit-xor, eq-of-bit_xor}
use rbitt.Peer.Bitfield.{raw_bit}
use rbitt.Dht.Node.{NodeId, IsId, distance, leading_bit, bucket_index}

pub length-distance : (a b : NodeId) → length a ≡ length b → length (distance a b) ≡ length a
unfolding distance
length-distance [] b h = refl
length-distance (x ∷ a) [] h = absurd (omega arith)
length-distance (x ∷ a) (y ∷ b) h = ap suc (length-distance a b (omega arith))

distance-IsByte : (a b : NodeId) → All IsByte a → All IsByte b → All IsByte (distance a b)
unfolding distance
distance-IsByte [] b ha hb = tt
distance-IsByte (x ∷ a) [] ha hb = tt
distance-IsByte (x ∷ a) (y ∷ b) ha hb = (bit_xor-lt x y ha.0 hb.0, distance-IsByte a b ha.1 hb.1)

get_or-distance :
    (a b : NodeId) (i : ℕ)
    → length a ≡ length b
    → get_or (distance a b) i 0 ≡ bit_xor (get_or a i 0) (get_or b i 0)
unfolding distance
get_or-distance [] [] i h = refl
get_or-distance [] (y ∷ b) i h = absurd (omega arith)
get_or-distance (x ∷ a) [] i h = absurd (omega arith)
get_or-distance (x ∷ a) (y ∷ b) zero h = refl
get_or-distance (x ∷ a) (y ∷ b) (suc i) h = get_or-distance a b i (omega arith)

-- A bit that the two do not share.
unfoldable pub differs : NodeId → NodeId → ℕ → Bool
differs a b k = if raw_bit a k then not (raw_bit b k) else raw_bit b k

-- The bit `k` is the first one set in `bits`.
abbrev FirstSet : Bytes → ℕ → Type 0
FirstSet bits k = (raw_bit bits k ≡ true) × ((j : ℕ) → j < k → raw_bit bits j ≡ false)

raw_bit-head : (b : ℕ) (bits : Bytes) (k : ℕ) → k < 8 → raw_bit (b ∷ bits) k ≡ test_bit b (7 - k)
unfolding raw_bit
raw_bit-head b bits k h =
    let p : k / 8 ≡ 0 = omega arith in let q : k % 8 ≡ k = omega arith in rw (p, q) refl

raw_bit-tail : (b : ℕ) (bits : Bytes) (k : ℕ) → raw_bit (b ∷ bits) (8 + k) ≡ raw_bit bits k
unfolding raw_bit
raw_bit-tail b bits k =
    let p : (8 + k) / 8 ≡ suc (k / 8) = omega arith in
    let q : (8 + k) % 8 ≡ k % 8 = omega arith in rw (p, q) refl

eq-of-distance : (a b : NodeId) → length a ≡ length b → All (λ d. d ≡ 0) (distance a b) → a ≡ b
unfolding distance
eq-of-distance [] [] h all = refl
eq-of-distance [] (y ∷ b) h all = absurd (omega arith)
eq-of-distance (x ∷ a) [] h all = absurd (omega arith)
eq-of-distance (x ∷ a) (y ∷ b) h all =
    let heads = eq-of-bit_xor x y all.0 in let tails = eq-of-distance a b (omega arith) all.1 in cc

FirstSet-head : (b : ℕ) (bits : Bytes) → b < 256 → b ≢ 0 → FirstSet (b ∷ bits) (leading_zeros b)
FirstSet-head b bits h n =
    let lt = leading_zeros-lt b h n in
    (
      raw_bit-head b bits (leading_zeros b) lt ∙ test_bit-leading_zeros b h n,
      λ j below.
          raw_bit-head b bits j (omega (arith, lt, below)) ∙ test_bit-before_leading b j h below lt,
    )

FirstSet-tail : (bits : Bytes) (k : ℕ) → FirstSet bits k → FirstSet (0 ∷ bits) (8 + k)
FirstSet-tail bits k found = (
  raw_bit-tail 0 bits k ∙ found.0,
  λ j below. elim (Bool-cases (ltb j 8)) [
    | inl e ↦ raw_bit-head 0 bits j (ltb→lt j 8 e) ∙ test_bit-zero (7 - j) (omega arith)
    | inr e ↦
        let back : j ≡ 8 + (j - 8) = ground arith in
        ap (raw_bit (0 ∷ bits)) back ∙ raw_bit-tail 0 bits (j - 8) ∙ found.1 (j - 8) (ground arith)
  ],
)

-- What the loop finds, counted from the byte where it starts.
abbrev Found : ℕ → Bytes → Type 0
Found i bits = (k : ℕ) × (k < length bits * 8) × (leading_bit i bits ≡ i * 8 + k) × FirstSet bits k

leading_bit-FirstSet :
    (i : ℕ) (bits : Bytes)
    → All IsByte bits
    → Found i bits ⊎ ((leading_bit i bits ≡ 159) × All (λ b. b ≡ 0) bits)
unfolding leading_bit
leading_bit-FirstSet i [] h = inr (refl, tt)
leading_bit-FirstSet i (zero ∷ bits) h = elim (leading_bit-FirstSet (suc i) bits h.1) [
  | inl f ↦ inl (8 + f.0, omega (arith, f.1), f.2 ∙ omega arith, FirstSet-tail bits f.0 f.3)
  | inr f ↦ inr (f.0, (refl, f.1))
]
leading_bit-FirstSet i (suc b ∷ bits) h =
    let lt = leading_zeros-lt (suc b) h.0 (omega arith) in
    inl (
      leading_zeros (suc b),
      omega (arith, lt),
      ground arith,
      FirstSet-head (suc b) bits h.0 (omega arith),
    )

raw_bit-distance :
    (a b : NodeId) (k : ℕ)
    → All IsByte a
    → All IsByte b
    → length a ≡ length b
    → raw_bit (distance a b) k ≡ differs a b k
unfolding raw_bit differs
raw_bit-distance a b k ha hb h =
    ap (λ d. test_bit d (7 - k % 8)) (get_or-distance a b (k / 8) h)
    ∙ test_bit-xor (get_or a (k / 8) 0) (get_or b (k / 8) 0) (7 - k % 8)
        (All-get_or IsByte a (k / 8) 0 (omega arith) ha)
        (All-get_or IsByte b (k / 8) 0 (omega arith) hb)

-- The bucket of an identifier other than ours is one of the 160: its number is the place of the
-- first bit, the highest of the first byte first, in which the two identifiers differ.
pub bucket_index-first_difference :
    (a b : NodeId)
    → IsId a
    → IsId b
    → a ≢ b
    → (bucket_index a b < 160)
      × (differs a b (bucket_index a b) ≡ true)
      × ((j : ℕ) → j < bucket_index a b → differs a b j ≡ false)
unfolding bucket_index
bucket_index-first_difference a b ha hb ne =
    let same : length a ≡ length b = omega (arith, ha.1, hb.1) in
    let bits = distance a b in
    let bit = λ (k : ℕ). raw_bit-distance a b k ha.0 hb.0 same in
    elim (leading_bit-FirstSet 0 bits (distance-IsByte a b ha.0 hb.0)) [
      | inl f ↦
          let k_eq : leading_bit 0 bits ≡ f.0 = omega (arith, f.2) in
          (
            omega (arith, f.1, k_eq, length-distance a b same, ha.1),
            rw k_eq (sym (bit f.0) ∙ f.3.0),
            λ j below. sym (bit j) ∙ f.3.1 j (omega (arith, below, k_eq)),
          )
      | inr f ↦ absurd (ne (eq-of-distance a b same f.1))
    ]

pub bucket_index-lt : (a b : NodeId) → IsId a → IsId b → bucket_index a b < 160
unfolding bucket_index
bucket_index-lt a b ha hb =
    let same : length a ≡ length b = omega (arith, ha.1, hb.1) in
    elim (leading_bit-FirstSet 0 (distance a b) (distance-IsByte a b ha.0 hb.0)) [
      | inl f ↦ omega (arith, f.1, f.2, length-distance a b same, ha.1)
      | inr f ↦ omega (arith, f.0)
    ]
