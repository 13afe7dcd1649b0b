-- ===== src/Bencode/Decode/Steps.antt =====
-- One step of the decoder on printed input: which decoder the first byte chooses, and what one
-- round of a loop does.
use rbitt.Prelude.{
  ℕ, suc, ◌+◌, ◌≤◌, ◌<◌, ◌≡◌, true, false, Option, none, some, [], ◌∷◌, ◌++◌, Bytes, codes,
  if◌then◌else◌, length, length-append, arith,
}
use rbitt.Bencode.Text.{is_digit, format_usize}
use rbitt.Bencode.Text.Decimal.{format-Leading}
use rbitt.Bencode.Value.{
  Value, Items, Fields, bytes, integer, list, dict, no_items, item, no_fields, field, insert, push,
  unsorted, ok,
}
use rbitt.Bencode.Encode.Print.{print, print_items, print_fields, print_bytes}
use rbitt.Bencode.Cursor.{Cursor, peek}
use rbitt.Bencode.Cursor.Window.{window, peek-window, next-window, slice_from-window}
use rbitt.Prelude.Same.{same_bytes}
use rbitt.Bencode.Scalar.{decode_integer, decode_bytes}
use rbitt.Bencode.Decode.{
  max_nesting_depth, decode_value_tracking_info, decode_list, list_loop, decode_dict_tracking_info,
  dict_loop, no_info, at_end, as_key,
}

-- The bytes of the `info` entry that `dict_loop` ends with.
unfoldable pub info_from : Option Bytes → Fields → Option Bytes
info_from acc no_fields = acc
info_from acc (field k v fs) =
    info_from (if same_bytes k (codes "info") then some (print v) else acc) fs

unfoldable pub info_of : Value → Option Bytes
unfolding info_from
info_of (dict fs) = info_from none fs
info_of _ = none

pub length-print_bytes_pos : (b : Bytes) → 0 < length (print_bytes b)
length-print_bytes_pos b = omega (arith, length-append (format_usize (length b)) (b':' ∷ b))

pub length-print_pos : (v : Value) → 0 < length (print v)
unfolding print
length-print_pos (bytes b) = length-print_bytes_pos b
length-print_pos (integer i) = omega arith
length-print_pos (list xs) = omega arith
length-print_pos (dict fs) = omega arith

-- A printed value does not look like the end of a list.
pub peek-print :
    (v : Value) (done rest : Bytes) → at_end (peek (window done (print v ++ rest))) ≡ false
unfolding print
peek-print (bytes b) done rest =
    let l = format-Leading (length b) in rw (peek-window, l.split) (ground (arith, l.is_digit))
peek-print (integer i) done rest = rw peek-window
peek-print (list xs) done rest = rw peek-window
peek-print (dict fs) done rest = rw peek-window

-- The first byte chooses the decoder.
module _ (f depth : ℕ) (c : Cursor) (shallow : depth ≤ max_nesting_depth) where
  pub step_bytes :
      (b : ℕ)
      → peek c ≡ some b
      → is_digit b ≡ true
      → decode_value_tracking_info (suc f) depth c ≡ no_info decode_bytes c
  unfolding decode_value_tracking_info
  step_bytes b e d = rw e (ground arith)

  pub step_integer :
      peek c ≡ some b'i' → decode_value_tracking_info (suc f) depth c ≡ no_info decode_integer c
  unfolding decode_value_tracking_info
  step_integer e = rw e (ground arith)

  pub step_list :
      peek c ≡ some b'l'
      → decode_value_tracking_info (suc f) depth c ≡ no_info (decode_list f depth) c
  unfolding decode_value_tracking_info
  step_list e = rw e (ground arith)

  pub step_dict :
      peek c ≡ some b'd'
      → decode_value_tracking_info (suc f) depth c ≡ decode_dict_tracking_info f depth c
  unfolding decode_value_tracking_info
  step_dict e = rw e (ground arith)

pub length-print_items_pos : (xs : Items) → 0 < length (print_items xs)
unfolding print
length-print_items_pos no_items = omega arith
length-print_items_pos (item v xs) =
    omega (arith, length-append (print v) (print_items xs), length-print_pos v)

pub length-print_fields_pos : (fs : Fields) → 0 < length (print_fields fs)
unfolding print
length-print_fields_pos no_fields = omega arith
length-print_fields_pos (field k v fs) =
    omega
      (arith, length-append (print_bytes k) (print v ++ print_fields fs), length-print_bytes_pos k)

-- One round of `list_loop` that reads a value.
pub list_loop_step :
    (f depth : ℕ) (acc : Items) (c c' : Cursor) (v : Value) (info : Option Bytes)
    → at_end (peek c) ≡ false
    → decode_value_tracking_info f (depth + 1) c ≡ ok ((v, info), c')
    → list_loop (suc f) depth acc c ≡ list_loop f depth (push acc v) c'
unfolding list_loop
list_loop_step f depth acc c c' v info more e = rw (more, e)

pub list_loop_end :
    (f depth : ℕ) (acc : Items) (done rest : Bytes)
    → list_loop (suc f) depth acc (window done (b'e' ∷ rest))
      ≡ ok (acc, window (done ++ b'e' ∷ []) rest)
unfolding list_loop
list_loop_end f depth acc done rest = rw (peek-window done (b'e' ∷ rest), next-window)

-- One round of `dict_loop` that reads an entry.
pub dict_loop_step :
    (f depth : ℕ) (entries : Fields) (last_key acc : Option Bytes) (k : Bytes) (v : Value)
    (info info' : Option Bytes) (done rest : Bytes)
    → unsorted last_key k ≡ false
    → at_end (peek (window done (print_bytes k ++ (print v ++ rest)))) ≡ false
    → decode_value_tracking_info f (depth + 1) (window done (print_bytes k ++ (print v ++ rest)))
      ≡ ok ((bytes k, info), window (done ++ print_bytes k) (print v ++ rest))
    → decode_value_tracking_info f (depth + 1) (window (done ++ print_bytes k) (print v ++ rest))
      ≡ ok ((v, info'), window ((done ++ print_bytes k) ++ print v) rest)
    → dict_loop
        (suc f)
        depth
        entries
        last_key
        acc
        (window done (print_bytes k ++ (print v ++ rest)))
      ≡ dict_loop f depth
          (insert k v entries)
          (some k)
          (if same_bytes k (codes "info") then some (print v) else acc)
          (window ((done ++ print_bytes k) ++ print v) rest)
unfolding dict_loop as_key
dict_loop_step f depth entries last_key acc k v info info' done rest fresh more e e' =
    rw (more, e, fresh, e', slice_from-window (done ++ print_bytes k) (print v) rest)
