-- ===== src/Peer/Message/Sound.antt =====
-- src-tauri/crates/oxidebt-peer/src/message.rs: what `Message::parse` accepts is what
-- `Message::encode` writes.
use rbitt.Prelude.{
  ℕ, ◌+◌, ◌^◌, ◌<◌, ◌≡◌, refl, sym, ap, ◌∙◌, subst, inl, inr, Bool-cases, ltb, Bool, true, false,
  [], ◌∷◌, ◌++◌, append-nil, Bytes, IsByte, All, String, ◌==◌, length, eq_nil-of-length, arith,
}
use rbitt.Peer.Error.{Result, ok, err, ◌>>=◌}
use rbitt.Peer.Wire.{
  put_u32, get_u32, get_u16, put_u32-get_u32, get_u32-bounds, length-get_u32, put_u16-get_u16,
  get_u16-lt,
}
use rbitt.Peer.Message.{
  Message, choke, unchoke, interested, not_interested, have, bitfield, request, piece, cancel, port,
  suggest_piece, have_all, have_none, reject_request, allowed_fast, extended, handshake, unknown,
  MessageId, id_byte, try_from, parse, parse_payload, parse_index, parse_block, parse_extension,
  encode, encode_extension,
}
use rbitt.Peer.Message.RoundTrip.{IsBlock, InRange}

-- The messages whose payload the parser does not look at.
unfoldable pub ignores_payload : Message → Bool
ignores_payload choke = true
ignores_payload unchoke = true
ignores_payload interested = true
ignores_payload not_interested = true
ignores_payload have_all = true
ignores_payload have_none = true
ignores_payload _ = false

-- The bytes are the encoding of the message, up to a payload that the parser does not look at.
pub record Encodes (bytes : Bytes) (m : Message) : Type 0 where
  pub in_range : InRange m
  pub extra : Bytes
  pub split : bytes ≡ encode m ++ extra
  pub exact : ignores_payload m ≡ false → extra ≡ []

exactly : {bytes : Bytes} {m : Message} → InRange m → bytes ≡ encode m → Encodes bytes m
exactly {m} r e = record {
  in_range = r;
  extra = [];
  split = e ∙ sym (append-nil (encode m));
  exact = λ h. refl;
}

put-parse_index :
    (payload : Bytes)
    → All IsByte payload
    → length payload ≡ 4
    → put_u32 (get_u32 payload).0 ≡ payload
put-parse_index payload all h =
    let nothing : (get_u32 payload).1 ≡ [] =
      eq_nil-of-length _ (omega (arith, length-get_u32 payload (omega arith))) in
    ap (λ rest. put_u32 (get_u32 payload).0 ++ rest) (sym nothing)
    ∙ put_u32-get_u32 payload all (omega arith)

put-parse_block :
    (payload : Bytes)
    → All IsByte payload
    → length payload ≡ 12
    → let (index, buf) = get_u32 payload in
      let (begin, buf') = get_u32 buf in
      put_u32 index ++ put_u32 begin ++ put_u32 (get_u32 buf').0 ≡ payload
put-parse_block payload all h =
    let buf = (get_u32 payload).1 in
    let buf' = (get_u32 buf).1 in
    let all_buf : All IsByte buf = (get_u32-bounds payload all).1 in
    let long : length payload ≡ 4 + length buf = length-get_u32 payload (omega arith) in
    let long' : length buf ≡ 4 + length buf' = length-get_u32 buf (omega arith) in
    ap (λ rest. put_u32 (get_u32 payload).0 ++ rest)
      (ap (λ rest. put_u32 (get_u32 buf).0 ++ rest)
          (put-parse_index buf' (get_u32-bounds buf all_buf).1 (omega arith))
        ∙ put_u32-get_u32 buf all_buf (omega arith))
    ∙ put_u32-get_u32 payload all (omega arith)

from_ok : {bytes : Bytes} {m m' : Message} → ok m ≡ ok m' → Encodes bytes m → Encodes bytes m'
from_ok {bytes} {m} {m'} h e = let same : m ≡ m' = cc in subst (Encodes bytes) same e

-- A message without numbers whose payload is not looked at.
flag :
    {payload : Bytes} (m : Message) (id : ℕ)
    → encode m ≡ id ∷ []
    → InRange m
    → ignores_payload m ≡ true
    → Encodes (id ∷ payload) m
flag {payload} m id e r i = record {
  in_range = r;
  extra = payload;
  split = rw e refl;
  exact = λ h. ground arith;
}

module _ {payload : Bytes} {m : Message} (all : All IsByte payload) where
  index-Encodes :
      (wrong_size : String) (message : ℕ → Message) (id : ℕ)
      → ((n : ℕ) → encode (message n) ≡ id ∷ put_u32 n)
      → ((n : ℕ) → n < 2 ^ 32 → InRange (message n))
      → parse_index wrong_size message payload ≡ ok m
      → Encodes (id ∷ payload) m
  unfolding parse_index
  index-Encodes wrong_size message id e r h = elim (Bool-cases (length payload == 4)) [
    | inl t ↦ from_ok (ground arith) (
        exactly (r _ (get_u32-bounds payload all).0)
          (ap (λ bs. id ∷ bs) (sym (put-parse_index payload all (ground arith))) ∙ sym (e _)))
    | inr f ↦ absurd (ground arith)
  ]

  block-Encodes :
      (wrong_size : String) (message : ℕ → ℕ → ℕ → Message) (id : ℕ)
      → ((index begin len : ℕ)
          → encode (message index begin len) ≡ id ∷ (put_u32 index ++ put_u32 begin ++ put_u32 len))
      → ((index begin len : ℕ) → IsBlock index begin len → InRange (message index begin len))
      → parse_block wrong_size message payload ≡ ok m
      → Encodes (id ∷ payload) m
  unfolding parse_block
  block-Encodes wrong_size message id e r h =
      let (small, all_buf) = get_u32-bounds payload all in
      let (small', all_buf') = get_u32-bounds (get_u32 payload).1 all_buf in
      elim (Bool-cases (length payload == 12)) [
        | inl t ↦ from_ok (ground arith) (
            exactly (r _ _ _ (small, small', (get_u32-bounds _ all_buf').0)) (
              ap (λ bs. id ∷ bs) (sym (put-parse_block payload all (ground arith)))
              ∙ sym (e _ _ _)))
        | inr f ↦ absurd (ground arith)
      ]

  piece-Encodes : parse_payload piece payload ≡ ok m → Encodes (id_byte piece ∷ payload) m
  unfolding parse_payload id_byte encode InRange
  piece-Encodes h =
      let buf = (get_u32 payload).1 in
      let (small, all_buf) = get_u32-bounds payload all in
      elim (Bool-cases (ltb (length payload) 8)) [
        | inl t ↦ absurd (ground arith)
        | inr f ↦
            let long : length payload ≡ 4 + length buf = length-get_u32 payload (ground arith) in
            from_ok {m = piece (get_u32 payload).0 (get_u32 buf).0 (get_u32 buf).1} (ground arith) (
              exactly (small, (get_u32-bounds buf all_buf).0)
                (ap (λ bs. id_byte piece ∷ bs)
                  (sym (
                    ap (λ rest. put_u32 (get_u32 payload).0 ++ rest)
                      (put_u32-get_u32 buf all_buf (ground arith))
                    ∙ put_u32-get_u32 payload all (ground arith)))))
      ]

  port-Encodes : parse_payload port payload ≡ ok m → Encodes (id_byte port ∷ payload) m
  unfolding parse_payload id_byte encode InRange
  port-Encodes h = elim (Bool-cases (length payload == 2)) [
    | inl t ↦ from_ok {m = port (get_u16 payload)} (ground arith) (
        exactly (get_u16-lt payload all)
          (ap (λ bs. id_byte port ∷ bs) (sym (put_u16-get_u16 payload all (ground arith)))))
    | inr f ↦ absurd (ground arith)
  ]

extended-Encodes :
    {m : Message} (payload : Bytes)
    → parse_payload extended payload ≡ ok m
    → Encodes (id_byte extended ∷ payload) m
unfolding parse_payload parse_extension id_byte encode encode_extension InRange
extended-Encodes [] h = absurd (cc)
extended-Encodes (id ∷ payload) h = elim (Bool-cases (id == 0)) [
  | inl t ↦ from_ok {m = extended (handshake payload)} (ground arith) (exactly tt (ground arith))
  | inr f ↦ from_ok {m = extended (unknown id payload)} (ground arith) (exactly tt refl)
]

payload-Encodes :
    (id : MessageId) {payload : Bytes} {m : Message}
    → All IsByte payload
    → parse_payload id payload ≡ ok m
    → Encodes (id_byte id ∷ payload) m
unfolding parse_payload id_byte encode InRange ignores_payload
payload-Encodes choke all h = from_ok h (flag choke _ refl tt refl)
payload-Encodes unchoke all h = from_ok h (flag unchoke _ refl tt refl)
payload-Encodes interested all h = from_ok h (flag interested _ refl tt refl)
payload-Encodes not_interested all h = from_ok h (flag not_interested _ refl tt refl)
payload-Encodes have all h = index-Encodes all _ have _ (λ n. refl) (λ n r. r) h
payload-Encodes bitfield all h = from_ok h (exactly tt refl)
payload-Encodes request all h =
    block-Encodes all _ request _ (λ index begin len. refl) (λ index begin len r. r) h
payload-Encodes piece all h = piece-Encodes all h
payload-Encodes cancel all h =
    block-Encodes all _ cancel _ (λ index begin len. refl) (λ index begin len r. r) h
payload-Encodes port all h = port-Encodes all h
payload-Encodes suggest_piece all h = index-Encodes all _ suggest_piece _ (λ n. refl) (λ n r. r) h
payload-Encodes have_all all h = from_ok h (flag have_all _ refl tt refl)
payload-Encodes have_none all h = from_ok h (flag have_none _ refl tt refl)
payload-Encodes reject_request all h =
    block-Encodes all _ reject_request _ (λ index begin len. refl) (λ index begin len r. r) h
payload-Encodes allowed_fast all h = index-Encodes all _ allowed_fast _ (λ n. refl) (λ n r. r) h
payload-Encodes extended {payload} all h = extended-Encodes payload h
payload-Encodes _ all h = absurd (cc)

id_byte-try_from : (b : ℕ) {id : MessageId} → try_from b ≡ ok id → id_byte id ≡ b
unfolding try_from id_byte
id_byte-try_from b h = ground arith

by_id :
    (b : ℕ) {payload : Bytes} {m : Message}
    → All IsByte payload
    → (r : Result MessageId) → try_from b ≡ r
    → (r >>= λ id. parse_payload id payload) ≡ ok m
    → Encodes (b ∷ payload) m
by_id b {payload} {m} all (ok id) known h =
    subst (λ b. Encodes (b ∷ payload) m) (id_byte-try_from b known) (payload-Encodes id all h)
by_id b all (err e) known h = absurd (cc)

-- What the parser accepts is the encoding of the message that it returns, whose numbers are in
-- range. Only behind the flag messages may anything follow.
pub encode-parse :
    (input : Bytes) {m : Message} → All IsByte input → parse input ≡ ok m → Encodes input m
unfolding parse encode InRange
encode-parse [] all h = from_ok h (exactly tt refl)
encode-parse (b ∷ payload) all h = by_id b all.1 (try_from b) refl h
