-- ===== src/Bencode/Cursor/Moves.antt =====
-- Where a step of the decoder leaves the cursor: a postcondition that holds of an error, and of no
-- run that is out of fuel.
use rbitt.Prelude.{
  if◌then◌else◌, subst, ℕ, zero, suc, ◌+◌, ◌≤◌, ◌<◌, ◌≡◌, ◌≢◌, refl, ap, ◌∙◌, some, [], ◌∷◌, Bytes,
  ltb, length, drop, length-take, arith, Bool, true, false, Bool-cases, inl, inr, Option-cases,
}
use rbitt.Bencode.Value.{Result, DecodeError, ok, err, out_of_fuel, bind}
use rbitt.Bencode.Cursor.{Cursor, head?, peek, next, remaining, read_bytes}

-- From `c` to `c'`: the same input, `k` bytes or more were read, and none behind the end.
pub record Moved (k : ℕ) (c c' : Cursor) : Type 0 where
  pub same : c'.input ≡ c.input
  pub ahead : c.pos + k ≤ c'.pos
  pub inside : c'.pos ≤ length c.input

-- The run failed with an error of the source, or it moved and `P` holds of what it returned.
pub data Lands {ℓ} {A : Type ℓ} (P : A → Type 0) (k : ℕ) (c : Cursor)
    : Result (A × Cursor) → Type ℓ where
  lands : {a : A} {c' : Cursor} → P a → Moved k c c' → Lands P k c (ok (a, c'))
  fails : {e : DecodeError} → Lands P k c (err e)

pub Moved-remaining : {k : ℕ} {c c' : Cursor} → Moved k c c' → remaining c' + k ≤ remaining c
unfolding remaining
Moved-remaining m = omega (arith, ap length m.same)

pub Moved-trans :
    (k : ℕ) {i j : ℕ} {c d e : Cursor} → k ≤ i + j → Moved i c d → Moved j d e → Moved k c e
Moved-trans k h m n = record {
  same = n.same ∙ m.same;
  ahead = omega arith;
  inside = omega (arith, ap length m.same);
}

module _ {ℓ κ} {A : Type ℓ} {B : Type κ} {P : A → Type 0} {Q : B → Type 0} where
  pub Lands-bind :
      {k m : ℕ} {c d : Cursor} {r : Result (A × Cursor)} (f : A → Cursor → Result (B × Cursor))
      → Lands P k d r
      → ((a : A) (e : Cursor) → P a → Moved k d e → Lands Q m c (f a e))
      → Lands Q m c (bind r λ (a, c'). f a c')
  Lands-bind f (lands {a} {c'} p m) then_f = then_f a c' p m
  Lands-bind f fails then_f = fails

module _ {ℓ} {A : Type ℓ} {P : A → Type 0} where
  pub Lands-if :
      {k : ℕ} {c : Cursor} (t : Bool) {x y : Result (A × Cursor)}
      → Lands P k c x
      → Lands P k c y
      → Lands P k c (if t then x else y)
  Lands-if true x y = x
  Lands-if false x y = y

  pub Lands-after :
      (m : ℕ) {k j : ℕ} {c d : Cursor} {r : Result (A × Cursor)}
      → m ≤ k + j
      → Moved k c d
      → Lands P j d r
      → Lands P m c r
  Lands-after m h moved (lands p n) = lands p (Moved-trans m h moved n)
  Lands-after m h moved fails = fails

  pub Lands-ne-out_of_fuel :
      {k : ℕ} {c : Cursor} {r : Result (A × Cursor)} → Lands P k c r → r ≢ out_of_fuel
  Lands-ne-out_of_fuel (lands p m) = cc
  Lands-ne-out_of_fuel fails = cc

  pub Lands-ok :
      {k : ℕ} {c : Cursor} {r : Result (A × Cursor)} {a : A} {c' : Cursor}
      → Lands P k c r
      → r ≡ ok (a, c')
      → P a
  Lands-ok (lands p m) e = subst P (cc) p
  Lands-ok fails e = cc

-- A check that reads nothing.
pub Lands-raise {ℓ} :
    {A : Type ℓ} {P : A → Type 0} {k : ℕ} {c d : Cursor} (r : Result A)
    → r ≢ out_of_fuel
    → Moved k c d
    → ((a : A) → r ≡ ok a → P a)
    → Lands P k c (bind r λ a. ok (a, d))
Lands-raise (ok a) ends m h = lands (h a refl) m
Lands-raise (err e) ends m h = fails
Lands-raise out_of_fuel ends m h = absurd (ends refl)

head?-drop : (n : ℕ) (s : Bytes) (b : ℕ) → head? (drop n s) ≡ some b → n < length s
head?-drop zero [] b h = cc
head?-drop zero (x ∷ s) b h = omega arith
head?-drop (suc n) [] b h = cc
head?-drop (suc n) (x ∷ s) b h = omega (arith, head?-drop n s b h)

pub next-Lands : (c : Cursor) → Lands (λ _. Unit) 1 c (next c)
unfolding next
next-Lands c = elim (Option-cases (peek c)) [
  | inl e ↦ rw (e, next) fails
  | inr (b, e) ↦
      rw (e, next)
        (lands tt (record {
          same = refl;
          ahead = omega arith;
          inside = omega (arith, head?-drop c.pos c.input b (unfold peek in e));
        }))
]

pub read_bytes-Lands : (len : ℕ) (c : Cursor) → Lands (λ b. length b ≤ len) len c (read_bytes len c)
unfolding read_bytes
read_bytes-Lands len c = elim (Bool-cases (ltb (length c.input) (c.pos + len))) [
  | inl e ↦ rw e fails
  | inr e ↦ rw e (
      lands (omega (arith, length-take len (drop c.pos c.input)))
        (record { same = refl; ahead = omega arith; inside = ground arith }))
]

-- Where there is a next byte, a byte is left.
pub peek-remaining : (c : Cursor) (b : ℕ) → peek c ≡ some b → 0 < remaining c
unfolding peek remaining
peek-remaining c b e = omega (arith, head?-drop c.pos c.input b e)
