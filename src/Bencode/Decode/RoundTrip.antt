-- ===== src/Bencode/Decode/RoundTrip.antt =====
-- What the encoder writes is decoded to the value it was written for, with the bytes of its `info`
-- entry, from anywhere in the input.
use rbitt.Prelude.{
  ℕ, zero, suc, ◌+◌, ◌*◌, ◌≤◌, ◌≡◌, refl, sym, ap, ◌∙◌, Option, none, some, [], ◌∷◌, ◌++◌,
  append_assoc, append-nil, Bytes, length, length-append, arith,
}
use rbitt.Prelude.Int.{ℤ}
use rbitt.Bencode.Text.{format_i64}
use rbitt.Bencode.Text.Decimal.{format-Leading}
use rbitt.Bencode.Value.{
  Value, Items, Fields, bytes, integer, list, dict, no_items, item, no_fields, field, insert, push,
  ok,
}
use rbitt.Bencode.Value.Order.{insert_all, push_all, insert_all-eq, push_all-eq, Ascends}
use rbitt.Bencode.Encode.Print.{print, print_items, print_fields, print_bytes}
use rbitt.Bencode.Cursor.{start, peek}
use rbitt.Bencode.Cursor.Window.{window, peek-window, next-window, remaining-window}
use rbitt.Bencode.Scalar.RoundTrip.{decode_integer-print, decode_bytes-print}
use rbitt.Bencode.Decode.{
  decode_value_tracking_info, decode_list, list_loop, decode_dict_tracking_info, dict_loop,
  decode_with_info_raw, decode, fuel_for,
}
use rbitt.Bencode.Encodable.{IsEncodable, IsEncodableItems, IsEncodableFields}
use rbitt.Bencode.Decode.Steps.{
  info_from, info_of, length-print_bytes_pos, length-print_pos, peek-print, step_bytes,
  step_integer, step_list, step_dict, length-print_items_pos, list_loop_step, list_loop_end,
  dict_loop_step,
}

-- With three units of fuel for each printed byte the value is read, wherever it stands.
abbrev ReadsValue : Value → Type 0
ReadsValue v =
    (f depth : ℕ) (done rest : Bytes)
    → IsEncodable depth v
    → 3 * length (print v) ≤ f
    → decode_value_tracking_info f depth (window done (print v ++ rest))
      ≡ ok ((v, info_of v), window (done ++ print v) rest)

ReadsValue-bytes : (b : Bytes) → ReadsValue (bytes b)
unfolding print IsEncodable info_of
ReadsValue-bytes b zero depth done rest h room = absurd (omega (arith, length-print_bytes_pos b))
ReadsValue-bytes b (suc f) depth done rest h room =
    let l = format-Leading (length b) in
    let first : peek (window done (print_bytes b ++ rest)) ≡ some l.first =
      peek-window done (print_bytes b ++ rest) ∙ rw l.split in
    rw (step_bytes f depth (window done (print_bytes b ++ rest)) h.0 l.first first l.is_digit)
      (rw (decode_bytes-print b done rest h.1))

ReadsValue-integer : (i : ℤ) → ReadsValue (integer i)
unfolding print IsEncodable info_of
ReadsValue-integer i zero depth done rest h room = absurd (omega arith)
ReadsValue-integer i (suc f) depth done rest h room =
    let input = b'i' ∷ (format_i64 i ++ b'e' ∷ []) ++ rest in
    rw (step_integer f depth (window done input) h.0 (peek-window done input))
      (rw (append_assoc (format_i64 i) (b'e' ∷ []) rest, decode_integer-print i done rest h.1))

ReadsItems : Items → Type 0
ReadsItems xs =
    (f depth : ℕ) (acc : Items) (done rest : Bytes)
    → IsEncodableItems (depth + 1) xs
    → 3 * length (print_items xs) ≤ f
    → list_loop f depth acc (window done (print_items xs ++ rest))
      ≡ ok (push_all acc xs, window (done ++ print_items xs) rest)

ReadsFields : Fields → Type 0
ReadsFields fs =
    (f depth : ℕ) (acc : Fields) (last_key info : Option Bytes) (done rest : Bytes)
    → IsEncodableFields (depth + 1) last_key fs
    → 3 * length (print_fields fs) ≤ f
    → dict_loop f depth acc last_key info (window done (print_fields fs ++ rest))
      ≡ ok ((insert_all acc fs, info_from info fs), window (done ++ print_fields fs) rest)

ReadsItems-item : (v : Value) (xs : Items) → ReadsValue v → ReadsItems xs → ReadsItems (item v xs)
unfolding ReadsItems print IsEncodable push_all
ReadsItems-item v xs hv hxs zero depth acc done rest h room =
    absurd (omega (arith, length-append (print v) (print_items xs), length-print_pos v))
ReadsItems-item v xs hv hxs (suc f) depth acc done rest h room =
    let sizes = length-append (print v) (print_items xs) in
    rw (append_assoc (print v) (print_items xs) rest) (
      list_loop_step f depth acc _ _ v _ (peek-print v done (print_items xs ++ rest)) (
        hv f (depth + 1) done (print_items xs ++ rest) h.0
          (omega (arith, sizes, length-print_items_pos xs)))
      ∙ hxs f depth (push acc v) (done ++ print v) rest h.1
          (omega (arith, sizes, length-print_pos v))
      ∙ simp append_assoc)

ReadsFields-field :
    (k : Bytes) (v : Value) (fs : Fields)
    → ReadsValue v
    → ReadsFields fs
    → ReadsFields (field k v fs)
unfolding ReadsFields print IsEncodable insert_all info_from
ReadsFields-field k v fs hv hfs zero depth acc last_key info done rest h room = absurd (
    omega
      (arith, length-append (print_bytes k) (print v ++ print_fields fs), length-print_bytes_pos k))
ReadsFields-field k v fs hv hfs (suc f) depth acc last_key info done rest h room =
    let sizes = length-append (print_bytes k) (print v ++ print_fields fs) in
    let sizes' = length-append (print v) (print_fields fs) in
    let after = print_fields fs ++ rest in
    let regroup : (print_bytes k ++ (print v ++ print_fields fs)) ++ rest
        ≡ print_bytes k ++ (print v ++ after) =
      simp append_assoc in
    rw regroup (
      dict_loop_step f depth acc last_key info k v _ _ done after h.0
        (peek-print (bytes k) done (print v ++ after))
        (ReadsValue-bytes k f (depth + 1) done (print v ++ after) h.1
          (omega (arith, sizes, sizes', length-print_pos v)))
        (hv f (depth + 1) (done ++ print_bytes k) after h.2
          (omega (arith, sizes, sizes', length-print_bytes_pos k)))
      ∙ hfs f depth (insert k v acc) (some k) _ ((done ++ print_bytes k) ++ print v) rest h.3
          (omega (arith, sizes, sizes', length-print_bytes_pos k))
      ∙ simp append_assoc)

ReadsValue-list : (xs : Items) → ReadsItems xs → ReadsValue (list xs)
unfolding print IsEncodable info_of ReadsItems decode_list
ReadsValue-list xs hxs zero depth done rest h room = absurd (omega arith)
ReadsValue-list xs hxs (suc zero) depth done rest h room = absurd (omega arith)
ReadsValue-list xs hxs (suc (suc f)) depth done rest h room =
    let input = print_items xs ++ rest in
    rw (step_list (suc f) depth (window done (b'l' ∷ input)) h.0 (peek-window done (b'l' ∷ input)))
      (rw
        (
          decode_list,
          next-window done b'l' input,
          hxs f depth no_items (done ++ b'l' ∷ []) rest h.1 (omega arith),
          push_all-eq xs,
        )
        (simp append_assoc))

-- Encodable entries ascend, to some last key.
last_key_of :
    (depth : ℕ) (prev : Option Bytes) (fs : Fields)
    → IsEncodableFields depth prev fs
    → (end : Option Bytes) × Ascends prev fs end
unfolding IsEncodable
last_key_of depth prev no_fields h = (prev, refl)
last_key_of depth prev (field k v fs) h =
    let (end, rest) = last_key_of depth (some k) fs h.3 in (end, (h.0, rest))

ReadsValue-dict : (fs : Fields) → ReadsFields fs → ReadsValue (dict fs)
unfolding print IsEncodable info_of ReadsFields decode_dict_tracking_info
ReadsValue-dict fs hfs zero depth done rest h room = absurd (omega arith)
ReadsValue-dict fs hfs (suc zero) depth done rest h room = absurd (omega arith)
ReadsValue-dict fs hfs (suc (suc f)) depth done rest h room =
    let input = print_fields fs ++ rest in
    let (end, sorted) = last_key_of (depth + 1) none fs h.1 in
    rw (step_dict (suc f) depth (window done (b'd' ∷ input)) h.0 (peek-window done (b'd' ∷ input)))
      (rw
        (
          next-window done b'd' input,
          hfs f depth no_fields none none (done ++ b'd' ∷ []) rest h.1 (omega arith),
          insert_all-eq fs end sorted,
        )
        (simp append_assoc))

ReadsItems-no_items : ReadsItems no_items
unfolding ReadsItems print push_all
ReadsItems-no_items zero depth acc done rest h room = absurd (omega arith)
ReadsItems-no_items (suc f) depth acc done rest h room = list_loop_end f depth acc done rest

ReadsFields-no_fields : ReadsFields no_fields
unfolding ReadsFields print insert_all info_from dict_loop
ReadsFields-no_fields zero depth acc last_key info done rest h room = absurd (omega arith)
ReadsFields-no_fields (suc f) depth acc last_key info done rest h room =
    rw (peek-window done (b'e' ∷ rest), next-window)

mutual
  read_value : (v : Value) → ReadsValue v
  read_value (bytes b) = ReadsValue-bytes b
  read_value (integer i) = ReadsValue-integer i
  read_value (list xs) = ReadsValue-list xs (read_items xs)
  read_value (dict fs) = ReadsValue-dict fs (read_fields fs)

  read_items : (xs : Items) → ReadsItems xs
  read_items no_items = ReadsItems-no_items
  read_items (item v xs) = ReadsItems-item v xs (read_value v) (read_items xs)

  read_fields : (fs : Fields) → ReadsFields fs
  read_fields no_fields = ReadsFields-no_fields
  read_fields (field k v fs) = ReadsFields-field k v fs (read_value v) (read_fields fs)

-- The decoder reads a printed value off the front of any input, and keeps the bytes of `info`.
pub decode_value-print :
    (v : Value) (f depth : ℕ) (done rest : Bytes)
    → IsEncodable depth v
    → 3 * length (print v) ≤ f
    → decode_value_tracking_info f depth (window done (print v ++ rest))
      ≡ ok ((v, info_of v), window (done ++ print v) rest)
decode_value-print = read_value

whole_input :
    (v : Value)
    → IsEncodable 0 v
    → decode_value_tracking_info (fuel_for (print v)) 0 (start (print v))
      ≡ ok ((v, info_of v), window (print v) [])
whole_input v h =
    ap (λ s. decode_value_tracking_info (fuel_for (print v)) 0 (start s))
      (sym (append-nil (print v)))
    ∙ decode_value-print v (fuel_for (print v)) 0 [] [] h (omega arith)

-- The decoder reads back what the encoder printed, all of it, beside the bytes that were printed
-- for the value of the entry `info`.
pub decode_with_info_raw-print :
    (v : Value) → IsEncodable 0 v → decode_with_info_raw (print v) ≡ ok (v, info_of v)
unfolding decode_with_info_raw
decode_with_info_raw-print v h = rw (whole_input v h, remaining-window (print v) [])

pub decode-print : (v : Value) → IsEncodable 0 v → decode (print v) ≡ ok v
unfolding decode
decode-print v h = rw (whole_input v h, remaining-window (print v) [])
