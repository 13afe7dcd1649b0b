-- ===== src/Bencode/Value.antt =====
-- src-tauri/crates/oxidebt-bencode/src/value.rs and error.rs: bencoded values. The dictionary is a
-- `BTreeMap`, which keeps its entries in the order of their keys: here a list of entries, in that
-- order, and `insert` is the map's.
pub mod Order
use rbitt.Prelude.{
  ℕ, Bool, true, false, not, Option, none, some, [], ◌∷◌, Bytes, ltb, ◌==◌, if◌then◌else◌,
}
use rbitt.Prelude.Lex.{lex_lt}
use rbitt.Prelude.Int.{ℤ}

mutual
  pub data Value : Type 0 where
    bytes : Bytes → Value
    integer : ℤ → Value
    list : Items → Value
    dict : Fields → Value

  -- `Vec<Value>`
  pub data Items : Type 0 where
    no_items : Items
    item : Value → Items → Items

  -- `BTreeMap<Bytes, Value>`
  pub data Fields : Type 0 where
    no_fields : Fields
    field : Bytes → Value → Fields → Fields

-- `key.as_ref() <= prev.as_ref()`
abbrev pub lex_le : Bytes → Bytes → Bool
lex_le key prev = not (lex_lt prev key)

-- `key.as_ref() <= prev`, where there is a previous key
abbrev pub unsorted : Option Bytes → Bytes → Bool
unsorted none key = false
unsorted (some prev) key = lex_le key prev

-- `dict.insert(key, value)`: a present key keeps its place and gets the new value.
unfoldable pub insert : Bytes → Value → Fields → Fields
insert key value no_fields = field key value no_fields
insert key value (field k v fs) =
    if lex_lt key k
    then field key value (field k v fs)
    else if lex_lt k key
    then field k v (insert key value fs)
    else field k value fs

-- `items.push(value)`
unfoldable pub push : Items → Value → Items
push no_items value = item value no_items
push (item v xs) value = item v (push xs value)

-- `d.get(key)`
unfoldable pub find : Bytes → Fields → Option Value
find key no_fields = none
find key (field k v fs) =
    if lex_lt key k then none else if lex_lt k key then find key fs else some v

-- `Value::get`
unfoldable pub get : Value → Bytes → Option Value
unfolding find
get (dict fs) key = find key fs
get _ key = none

unfoldable pub as_bytes : Value → Option Bytes
as_bytes (bytes b) = some b
as_bytes _ = none

unfoldable pub as_integer : Value → Option ℤ
as_integer (integer i) = some i
as_integer _ = none

unfoldable pub as_list : Value → Option Items
as_list (list xs) = some xs
as_list _ = none

unfoldable pub as_dict : Value → Option Fields
as_dict (dict fs) = some fs
as_dict _ = none

pub data DecodeError : Type 0 where
  unexpected_eof : DecodeError
  invalid_integer : Bytes → DecodeError
  invalid_string_length : DecodeError
  unexpected_byte : ℕ → ℕ → DecodeError
  non_string_key : DecodeError
  unsorted_keys : DecodeError
  trailing_data : DecodeError
  leading_zeros : DecodeError
  negative_zero : DecodeError
  string_too_large : ℕ → DecodeError
  nesting_too_deep : DecodeError

-- What a decoder returns. `out_of_fuel` has no counterpart in the source: the recursion of the
-- model ended before that of the program. `decode` never returns it.
pub data Result {ℓ} (A : Type ℓ) : Type ℓ where
  ok : A → Result A
  err : DecodeError → Result A
  out_of_fuel : Result A

abbrev pub bind {ℓ κ} : {A : Type ℓ} {B : Type κ} → Result A → (A → Result B) → Result B
bind (ok a) f = f a
bind (err e) f = err e
bind out_of_fuel f = out_of_fuel
