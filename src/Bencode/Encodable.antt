-- ===== src/Bencode/Encodable.antt =====
-- The values that the decoder can return and the encoder can write: what the limits of
-- src-tauri/crates/oxidebt-bencode/src/decode.rs and the order of a `BTreeMap` allow.
use rbitt.Prelude.{ℕ, ◌+◌, ◌≤◌, ◌≡◌, false, Option, none, some, Bytes, length}
use rbitt.Bencode.Text.Decimal.{InI64}
use rbitt.Bencode.Value.{
  Value, Items, Fields, bytes, integer, list, dict, no_items, item, no_fields, field, unsorted,
}
use rbitt.Bencode.Encode.Print.{IsSorted, IsSortedItems, IsSortedFields}
use rbitt.Bencode.Scalar.{max_string_length}
use rbitt.Bencode.Decode.{max_nesting_depth}

-- A byte string that stands at depth `depth`.
abbrev pub FitsBytes : ℕ → Bytes → Type 0
FitsBytes depth b = (depth ≤ max_nesting_depth) × (length b ≤ max_string_length)

unfoldable mutual
  pub IsEncodable : ℕ → Value → Type 0
  IsEncodable depth (bytes b) = FitsBytes depth b
  IsEncodable depth (integer i) = (depth ≤ max_nesting_depth) × InI64 i
  IsEncodable depth (list xs) = (depth ≤ max_nesting_depth) × IsEncodableItems (depth + 1) xs
  IsEncodable depth (dict fs) = (depth ≤ max_nesting_depth) × IsEncodableFields (depth + 1) none fs

  pub IsEncodableItems : ℕ → Items → Type 0
  IsEncodableItems depth no_items = Unit
  IsEncodableItems depth (item v xs) = IsEncodable depth v × IsEncodableItems depth xs

  -- `prev` is the key before, which the first key must exceed.
  pub IsEncodableFields : ℕ → Option Bytes → Fields → Type 0
  IsEncodableFields depth prev no_fields = Unit
  IsEncodableFields depth prev (field k v fs) =
      (unsorted prev k ≡ false)
      × FitsBytes depth k
      × IsEncodable depth v
      × IsEncodableFields depth (some k) fs

mutual
  unfolding IsEncodable IsSorted

  sorted : (depth : ℕ) (v : Value) → IsEncodable depth v → IsSorted v
  sorted depth (bytes b) h = tt
  sorted depth (integer i) h = tt
  sorted depth (list xs) h = sorted_items (depth + 1) xs h.1
  sorted depth (dict fs) h = sorted_fields (depth + 1) none fs h.1

  sorted_items : (depth : ℕ) (xs : Items) → IsEncodableItems depth xs → IsSortedItems xs
  sorted_items depth no_items h = tt
  sorted_items depth (item v xs) h = (sorted depth v h.0, sorted_items depth xs h.1)

  sorted_fields :
      (depth : ℕ) (prev : Option Bytes) (fs : Fields)
      → IsEncodableFields depth prev fs
      → IsSortedFields prev fs
  sorted_fields depth prev no_fields h = tt
  sorted_fields depth prev (field k v fs) h =
      (h.0, sorted depth v h.2, sorted_fields depth (some k) fs h.3)

pub IsEncodable-IsSorted : (depth : ℕ) (v : Value) → IsEncodable depth v → IsSorted v
IsEncodable-IsSorted depth v = sorted depth v
