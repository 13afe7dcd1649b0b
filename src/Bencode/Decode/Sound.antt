-- ===== src/Bencode/Decode/Sound.antt =====
-- On any input the decoder ends, and what it accepts can be encoded.
use rbitt.Prelude.{
  subst, ℕ, zero, suc, ◌+◌, ◌*◌, ◌≤◌, ◌<◌, ◌≡◌, ◌≢◌, refl, Option, none, some, Bytes, ltb, ◌==◌,
  if◌then◌else◌, arith, Bool-cases, inl, inr, Option-cases,
}
use rbitt.Bencode.Text.{is_digit}
use rbitt.Bencode.Value.{
  Value, Items, Fields, bytes, integer, list, dict, no_items, no_fields, insert, push, unsorted,
  trailing_data, Result, ok, err, out_of_fuel, bind,
}
use rbitt.Bencode.Cursor.{Cursor, M, peek, remaining, start}
use rbitt.Bencode.Cursor.Moves.{
  Lands, lands, fails, Moved-trans, Moved-remaining, Lands-bind, Lands-after, Lands-raise, Lands-if,
  next-Lands, peek-remaining,
}
use rbitt.Bencode.Scalar.{decode_integer, decode_bytes}
use rbitt.Bencode.Scalar.Sound.{decode_integer-Lands, decode_bytes-Lands}
use rbitt.Bencode.Decode.{
  max_nesting_depth, Tracked, no_info, untracked, as_key, at_end, decode_value_tracking_info,
  decode_list, list_loop, decode_dict_tracking_info, dict_loop, fuel_for, decode,
}
use rbitt.Bencode.Decode.Collected.{Collected, Collected-insert, push-IsEncodable}
use rbitt.Bencode.Encodable.{FitsBytes, IsEncodable, IsEncodableItems, IsEncodableFields}

-- A value, and the bytes of `info` beside it.
abbrev GoodValue : ℕ → Tracked Value → Type 0
GoodValue depth (v, info) = IsEncodable depth v

abbrev GoodFields : ℕ → Tracked Fields → Type 0
GoodFields depth (fs, info) = IsEncodableFields depth none fs

no_info-Lands :
    (depth : ℕ) (m : M Value) (c : Cursor)
    → Lands (IsEncodable depth) 1 c (m c)
    → Lands (GoodValue depth) 1 c (no_info m c)
no_info-Lands depth m c h = Lands-bind _ h λ v d good n. lands good n

untracked-Lands :
    (depth : ℕ) (m : M (Tracked Value)) (c : Cursor)
    → Lands (GoodValue depth) 1 c (m c)
    → Lands (IsEncodable depth) 1 c (untracked m c)
untracked-Lands depth m c h = Lands-bind _ h λ v d good n. lands good n

as_key-FitsBytes :
    (depth : ℕ) (v : Value) (k : Bytes) → IsEncodable depth v → as_key v ≡ ok k → FitsBytes depth k
unfolding as_key IsEncodable
as_key-FitsBytes depth (bytes b) k h e = ground arith
as_key-FitsBytes depth (integer i) k h e = absurd (ground arith)
as_key-FitsBytes depth (list xs) k h e = absurd (ground arith)
as_key-FitsBytes depth (dict fs) k h e = absurd (ground arith)

as_key-ends : (v : Value) → as_key v ≢ out_of_fuel
unfolding as_key
as_key-ends (bytes b) = cc
as_key-ends (integer i) = cc
as_key-ends (list xs) = cc
as_key-ends (dict fs) = cc

mutual
  unfolding decode_value_tracking_info IsEncodable

  value-Lands :
      (f depth : ℕ) (c : Cursor)
      → 3 * remaining c + 1 ≤ f
      → Lands (GoodValue depth) 1 c (decode_value_tracking_info f depth c)
  value-Lands zero depth c h = absurd (omega arith)
  value-Lands (suc f) depth c h = elim (Bool-cases (ltb max_nesting_depth depth)) [
    | inl deep ↦ rw deep fails
    | inr ok_depth ↦
        let shallow : depth ≤ max_nesting_depth = ground arith in
        elim (Option-cases (peek c)) [
          | inl e ↦ rw (ok_depth, e) fails
          | inr (b, e) ↦
              let room = peek-remaining c b e in
              rw (ok_depth, e)
                (Lands-if (b == b'i')
                  (no_info-Lands depth decode_integer c (decode_integer-Lands depth c shallow))
                  (Lands-if (b == b'l')
                    (no_info-Lands depth (decode_list f depth) c
                      (list-Lands f depth c room (omega arith) shallow))
                    (Lands-if (b == b'd') (dict-Lands f depth c room (omega arith) shallow) (
                      Lands-if (is_digit b)
                        (no_info-Lands depth decode_bytes c (decode_bytes-Lands depth c shallow))
                        fails))))
        ]
  ]

  list-Lands :
      (f depth : ℕ) (c : Cursor)
      → 0 < remaining c
      → 3 * remaining c ≤ f
      → depth ≤ max_nesting_depth
      → Lands (IsEncodable depth) 1 c (decode_list f depth c)
  list-Lands zero depth c room h shallow = absurd (omega arith)
  list-Lands (suc f) depth c room h shallow = Lands-bind _ (next-Lands c) λ b d _ m.
      Lands-bind _ (list_loop-Lands f depth no_items d tt (omega (arith, Moved-remaining m)))
        λ xs e good n. lands (shallow, good) (Moved-trans 1 (omega arith) m n)

  list_loop-Lands :
      (f depth : ℕ) (acc : Items) (c : Cursor)
      → IsEncodableItems (depth + 1) acc
      → 3 * remaining c + 2 ≤ f
      → Lands (IsEncodableItems (depth + 1)) 1 c (list_loop f depth acc c)
  list_loop-Lands zero depth acc c good h = absurd (omega arith)
  list_loop-Lands (suc f) depth acc c good h = elim (Bool-cases (at_end (peek c))) [
    | inl e ↦ rw e (Lands-bind _ (next-Lands c) λ b d _ m. lands good m)
    | inr e ↦ rw e (
        Lands-bind _
          (untracked-Lands (depth + 1) (decode_value_tracking_info f (depth + 1)) c
            (value-Lands f (depth + 1) c (omega arith)))
          λ v d fine m. Lands-after 1 (omega arith) m (
            list_loop-Lands f depth (push acc v) d (push-IsEncodable (depth + 1) acc v good fine)
              (omega (arith, Moved-remaining m))))
  ]

  dict-Lands :
      (f depth : ℕ) (c : Cursor)
      → 0 < remaining c
      → 3 * remaining c ≤ f
      → depth ≤ max_nesting_depth
      → Lands (GoodValue depth) 1 c (decode_dict_tracking_info f depth c)
  dict-Lands zero depth c room h shallow = absurd (omega arith)
  dict-Lands (suc f) depth c room h shallow = Lands-bind _ (next-Lands c) λ b d _ m.
      Lands-bind _
        (dict_loop-Lands f depth no_fields none none d (record { fine = tt; ascending = refl })
          (omega (arith, Moved-remaining m)))
        λ fs e good n. lands (shallow, good) (Moved-trans 1 (omega arith) m n)

  dict_loop-Lands :
      (f depth : ℕ) (entries : Fields) (last_key info : Option Bytes) (c : Cursor)
      → Collected (depth + 1) entries last_key
      → 3 * remaining c + 2 ≤ f
      → Lands (GoodFields (depth + 1)) 1 c (dict_loop f depth entries last_key info c)
  dict_loop-Lands zero depth entries last_key info c s h = absurd (omega arith)
  dict_loop-Lands (suc f) depth entries last_key info c s h = elim (Bool-cases (at_end (peek c))) [
    | inl e ↦ rw e (Lands-bind _ (next-Lands c) λ b d _ m. lands s.fine m)
    | inr e ↦ rw e (
        Lands-bind _
          (untracked-Lands (depth + 1) (decode_value_tracking_info f (depth + 1)) c
            (value-Lands f (depth + 1) c (omega arith)))
          λ k d fine_k m.
            Lands-bind _
              (Lands-raise (as_key k) (as_key-ends k) m
                λ key is_key. as_key-FitsBytes (depth + 1) k key fine_k is_key)
              λ key d' fits n. elim (Bool-cases (unsorted last_key key)) [
                | inl bad ↦ rw bad fails
                | inr fresh ↦ rw fresh (
                    Lands-bind _
                      (untracked-Lands (depth + 1) (decode_value_tracking_info f (depth + 1)) d'
                        (value-Lands f (depth + 1) d' (omega (arith, Moved-remaining n))))
                      λ v d'' fine o.
                        Lands-after 1 (omega arith) (Moved-trans 1 (omega arith) n o) (
                          dict_loop-Lands f depth (insert key v entries) (some key) _ d''
                            (Collected-insert (depth + 1) entries last_key key v s fresh fits fine)
                            (omega (arith, Moved-remaining n, Moved-remaining o))))
              ])
  ]

-- What `decode` makes of a run over the whole input.
finish : Result (Value × Cursor) → Result Value
finish r = bind r λ (v, c). if ltb 0 (remaining c) then err trailing_data else ok v

finish-ends :
    (P : Value → Type 0) (k : ℕ) (c : Cursor) (r : Result (Value × Cursor))
    → Lands P k c r
    → finish r ≢ out_of_fuel
unfolding finish
finish-ends P k c _ (lands {c' = d} p m) = ground arith
finish-ends P k c _ fails = cc

finish-ok :
    (P : Value → Type 0) (k : ℕ) (c : Cursor) (r : Result (Value × Cursor)) (v : Value)
    → Lands P k c r
    → finish r ≡ ok v
    → P v
unfolding finish
finish-ok P k c _ v (lands {a = w} {c' = d} p m) e =
    let same : w ≡ v = ground arith in subst P same p
finish-ok P k c _ v fails e = cc

whole_input-Lands :
    (input : Bytes)
    → Lands
        (IsEncodable 0)
        1
        (start input)
        (untracked (decode_value_tracking_info (fuel_for input) 0) (start input))
whole_input-Lands input =
    untracked-Lands 0 (decode_value_tracking_info (fuel_for input) 0) (start input)
      (value-Lands (fuel_for input) 0 (start input) (unfold remaining in omega arith))

-- On any input the decoder returns a value or an error: the fuel that `decode` gives suffices.
pub decode-ends : (input : Bytes) → decode input ≢ out_of_fuel
unfolding decode finish
decode-ends input = finish-ends (IsEncodable 0) 1 (start input) _ (whole_input-Lands input)

-- Every value that the decoder accepts keeps to the limits on nesting, on the lengths of strings and
-- on integers, and its dictionaries are sorted.
pub decode-IsEncodable : (input : Bytes) (v : Value) → decode input ≡ ok v → IsEncodable 0 v
unfolding decode finish
decode-IsEncodable input v h =
    finish-ok (IsEncodable 0) 1 (start input) _ v (whole_input-Lands input) h
