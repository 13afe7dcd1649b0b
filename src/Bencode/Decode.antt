-- ===== src/Bencode/Decode.antt =====
-- src-tauri/crates/oxidebt-bencode/src/decode.rs: the recursion over lists and dictionaries. What a
-- call leaves of the input is not a structural part of it, so every call of the recursion, and every
-- round of a loop, costs a unit of fuel. `decode` gives three units for each byte and one more.
pub mod Steps
pub mod RoundTrip
pub mod Collected
pub mod Sound
use rbitt.Prelude.{
  ℕ, zero, suc, ◌+◌, ◌*◌, Bool, false, Option, none, some, Bytes, codes, ltb, ◌==◌, if◌then◌else◌,
  length,
}
use rbitt.Bencode.Value.{
  Value, Items, Fields, bytes, list, dict, no_items, no_fields, insert, push, unsorted, Result, ok,
  err, out_of_fuel, bind, unexpected_eof, unexpected_byte, non_string_key, unsorted_keys,
  trailing_data, nesting_too_deep,
}
use rbitt.Bencode.Cursor.{M, pure, raise, ◌>>=◌, run, start, peek, next, remaining, slice_from}
use rbitt.Bencode.Text.{is_digit}
use rbitt.Prelude.Same.{same_bytes}
use rbitt.Bencode.Scalar.{decode_integer, decode_bytes}

abbrev pub max_nesting_depth : ℕ
max_nesting_depth = 100

-- A value beside the bytes of the `info` entry, where there is one.
abbrev pub Tracked {ℓ} : Type ℓ → Type ℓ
Tracked A = A × Option Bytes

abbrev pub untracked : M (Tracked Value) → M Value
untracked m = do (v, _) ← m; pure v

abbrev pub no_info : M Value → M (Tracked Value)
no_info m = do v ← m; pure (v, none)

-- The key of an entry: a value that is a byte string.
unfoldable pub as_key : Value → Result Bytes
as_key (bytes b) = ok b
as_key _ = err non_string_key

-- `peek() == Some(b'e')`
abbrev pub at_end : Option ℕ → Bool
at_end none = false
at_end (some b) = b == b'e'

abbrev pub position : M ℕ
position c = pure c.pos c

-- `slice_from(from)`, where the entry just read is `info`
abbrev pub track : Bytes → ℕ → Option Bytes → M (Option Bytes)
track key from info_raw c =
    pure (if same_bytes key (codes "info") then some (slice_from c from) else info_raw) c

unfoldable mutual
  pub decode_value_tracking_info : ℕ → ℕ → M (Tracked Value)
  decode_value_tracking_info zero depth c = out_of_fuel
  decode_value_tracking_info (suc f) depth c =
      let in_list = run c (no_info (decode_list f depth)) in
      let in_dict = run c (decode_dict_tracking_info f depth) in
      if ltb max_nesting_depth depth then err nesting_too_deep else elim (peek c) [
        | none ↦ err unexpected_eof
        | some b ↦
            if b == b'i'
            then no_info decode_integer c
            else if b == b'l'
            then in_list
            else if b == b'd'
            then in_dict
            else if is_digit b
            then no_info decode_bytes c
            else err (unexpected_byte b'i' b)
      ]

  pub decode_list : ℕ → ℕ → M Value
  decode_list zero depth c = out_of_fuel
  decode_list (suc f) depth c =
      run c do _ ← next; items ← list_loop f depth no_items; pure (list items)

  pub list_loop : ℕ → ℕ → Items → M Items
  list_loop zero depth items c = out_of_fuel
  list_loop (suc f) depth items c =
      let more = run c do
        v ← untracked (decode_value_tracking_info f (depth + 1))
        list_loop f depth (push items v)
      in if at_end (peek c) then (run c do _ ← next; pure items) else more

  pub decode_dict_tracking_info : ℕ → ℕ → M (Tracked Value)
  decode_dict_tracking_info zero depth c = out_of_fuel
  decode_dict_tracking_info (suc f) depth c = run c do
    _ ← next
    (entries, info_raw) ← dict_loop f depth no_fields none none
    pure (dict entries, info_raw)

  pub dict_loop : ℕ → ℕ → Fields → Option Bytes → Option Bytes → M (Tracked Fields)
  dict_loop zero depth entries last_key info_raw c = out_of_fuel
  dict_loop (suc f) depth entries last_key info_raw c =
      let more = run c do
        k ← untracked (decode_value_tracking_info f (depth + 1))
        key ← raise (as_key k)
        if unsorted last_key key then raise (err unsorted_keys) else do
          value_start ← position
          value ← untracked (decode_value_tracking_info f (depth + 1))
          info_raw' ← track key value_start info_raw
          dict_loop f depth (insert key value entries) (some key) info_raw'
      in if at_end (peek c) then (run c do _ ← next; pure (entries, info_raw)) else more

abbrev pub fuel_for : Bytes → ℕ
fuel_for input = 3 * length input + 1

-- No byte may follow the value.
unfoldable pub decode_with_info_raw : Bytes → Result (Tracked Value)
decode_with_info_raw input =
    bind (decode_value_tracking_info (fuel_for input) 0 (start input))
      λ (found, c). if ltb 0 (remaining c) then err trailing_data else ok found

unfoldable pub decode : Bytes → Result Value
decode input =
    bind (untracked (decode_value_tracking_info (fuel_for input) 0) (start input))
      λ (v, c). if ltb 0 (remaining c) then err trailing_data else ok v
