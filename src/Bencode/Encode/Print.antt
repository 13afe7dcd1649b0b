-- ===== src/Bencode/Encode/Print.antt =====
-- What the encoder writes, as a function of the value alone.
use rbitt.Prelude.{
  ap, ◌∙◌, false, Option, none, some, [], ◌∷◌, ◌++◌, Bytes, length, ◌≡◌, refl, append_assoc,
}
use rbitt.Bencode.Text.{format_usize, format_i64}
use rbitt.Bencode.Value.{
  Value, Items, Fields, bytes, integer, list, dict, no_items, item, no_fields, field, unsorted,
}
use rbitt.Bencode.Encode.{
  encode_bytes, encode_integer, encode_value, encode_items, encode_fields, encode,
}

abbrev pub print_bytes : Bytes → Bytes
print_bytes b = format_usize (length b) ++ b':' ∷ b

unfoldable mutual
  pub print : Value → Bytes
  print (bytes b) = print_bytes b
  print (integer i) = b'i' ∷ (format_i64 i ++ b'e' ∷ [])
  print (list xs) = b'l' ∷ print_items xs
  print (dict fs) = b'd' ∷ print_fields fs

  -- With the closing `e`.
  pub print_items : Items → Bytes
  print_items no_items = b'e' ∷ []
  print_items (item v xs) = print v ++ print_items xs

  pub print_fields : Fields → Bytes
  print_fields no_fields = b'e' ∷ []
  print_fields (field k v fs) = print_bytes k ++ (print v ++ print_fields fs)

-- The keys of each dictionary ascend, as those of a `BTreeMap` do.
unfoldable mutual
  pub IsSorted : Value → Type 0
  IsSorted (bytes b) = Unit
  IsSorted (integer i) = Unit
  IsSorted (list xs) = IsSortedItems xs
  IsSorted (dict fs) = IsSortedFields none fs

  pub IsSortedItems : Items → Type 0
  IsSortedItems no_items = Unit
  IsSortedItems (item v xs) = IsSorted v × IsSortedItems xs

  pub IsSortedFields : Option Bytes → Fields → Type 0
  IsSortedFields prev no_fields = Unit
  IsSortedFields prev (field k v fs) =
      (unsorted prev k ≡ false) × IsSorted v × IsSortedFields (some k) fs

mutual
  unfolding encode_value print encode_bytes encode_integer IsSorted

  encode_value-print :
      (v : Value) (buf : Bytes) → IsSorted v → encode_value v buf ≡ some (buf ++ print v)
  encode_value-print (bytes b) buf h = simp append_assoc
  encode_value-print (integer i) buf h = simp append_assoc
  encode_value-print (list xs) buf h =
      let (out, runs, same) = encode_items-print xs (buf ++ b'l' ∷ []) h in
      rw runs (ap some (same ∙ append_assoc buf (b'l' ∷ []) (print_items xs)))
  encode_value-print (dict fs) buf h =
      let (out, runs, same) = encode_fields-print fs none (buf ++ b'd' ∷ []) h in
      rw runs (ap some (same ∙ append_assoc buf (b'd' ∷ []) (print_fields fs)))

  encode_items-print :
      (xs : Items) (buf : Bytes)
      → IsSortedItems xs
      → (buf' : Bytes) × (encode_items xs buf ≡ some buf')
        × (buf' ++ b'e' ∷ [] ≡ buf ++ print_items xs)
  encode_items-print no_items buf h = (buf, refl, refl)
  encode_items-print (item v xs) buf h =
      let (out, runs, same) = encode_items-print xs (buf ++ print v) h.1 in
      (
        out,
        rw (encode_value-print v buf h.0) runs,
        same ∙ append_assoc buf (print v) (print_items xs),
      )

  encode_fields-print :
      (fs : Fields) (prev : Option Bytes) (buf : Bytes)
      → IsSortedFields prev fs
      → (buf' : Bytes) × (encode_fields fs prev buf ≡ some buf')
        × (buf' ++ b'e' ∷ [] ≡ buf ++ print_fields fs)
  encode_fields-print no_fields prev buf h = (buf, refl, refl)
  encode_fields-print (field k v fs) prev buf h =
      let buf_key = encode_bytes k buf in
      let (out, runs, same) = encode_fields-print fs (some k) (buf_key ++ print v) h.2 in
      (out, rw (h.0, encode_value-print v buf_key h.1) runs, same ∙ simp append_assoc)

-- A value whose dictionaries are sorted is encoded, as its print; the encoder reports
-- `UnsortedKeys` on no such value.
pub encode-print : (v : Value) → IsSorted v → encode v ≡ some (print v)
unfolding encode
encode-print v h = encode_value-print v [] h
