-- ===== src/Bencode/Cursor.antt =====
-- src-tauri/crates/oxidebt-bencode/src/decode.rs, `Cursor`: the input and a position in it. A step
-- of the decoder takes the cursor and returns it moved on.
pub mod Window
pub mod Moves
use rbitt.Prelude.{
  ℕ, zero, suc, ◌+◌, ◌-◌, Option, none, some, List, [], ◌∷◌, Bytes, ltb, if◌then◌else◌, length,
  take, drop,
}
use rbitt.Bencode.Value.{Result, ok, err, bind, unexpected_eof}

pub record Cursor : Type 0 where
  pub input : Bytes
  pub pos : ℕ

abbrev pub M {ℓ} : Type ℓ → Type ℓ
M A = Cursor → Result (A × Cursor)

abbrev pub pure {ℓ} : {A : Type ℓ} → A → M A
pure a c = ok (a, c)

abbrev pub raise {ℓ} : {A : Type ℓ} → Result A → M A
raise r c = bind r (λ a. ok (a, c))

module _ {ℓ κ} {A : Type ℓ} {B : Type κ} where
  infixl 1 ◌>>=◌
  abbrev pub ◌>>=◌ : M A → (A → M B) → M B
  p >>= f = λ c. bind (p c) λ (a, c'). f a c'

abbrev pub run {ℓ} : {A : Type ℓ} → Cursor → M A → Result (A × Cursor)
run c p = p c

-- `Cursor::new`
abbrev pub start : Bytes → Cursor
start input = record { input = input; pos = 0 }

-- `input.get(pos)`
abbrev pub head? : Bytes → Option ℕ
head? [] = none
head? (b ∷ s) = some b

unfoldable pub peek : Cursor → Option ℕ
peek c = head? (drop c.pos c.input)

unfoldable pub next : M ℕ
unfolding peek
next c = elim (peek c) [ none ↦ err unexpected_eof | some b ↦ ok (b, record c { pos = c.pos + 1 }) ]

unfoldable pub remaining : Cursor → ℕ
remaining c = length c.input - c.pos

unfoldable pub slice_from : Cursor → ℕ → Bytes
slice_from c from = take (c.pos - from) (drop from c.input)

unfoldable pub read_bytes : ℕ → M Bytes
read_bytes len c =
    if ltb (length c.input) (c.pos + len)
    then err unexpected_eof
    else ok (take len (drop c.pos c.input), record c { pos = c.pos + len })
