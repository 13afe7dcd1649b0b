-- ===== src/Peer/Message/RoundTrip.antt =====
-- src-tauri/crates/oxidebt-peer/src/message.rs: an encoded message is parsed back.
use rbitt.Prelude.{
  ℕ, ◌^◌, ◌<◌, ◌≡◌, refl, ap, [], ◌∷◌, ◌++◌, Bytes, String, ◌==◌, if◌then◌else◌, length, arith,
  drop, take, take-append, drop-append,
}
use rbitt.Peer.Error.{ok}
use rbitt.Peer.Wire.{put_u32, get_u32, get_u32-put_u32, get_u16-put_u16}
use rbitt.Peer.Message.{
  Message, keep_alive, choke, unchoke, interested, not_interested, have, bitfield, request, piece,
  cancel, port, suggest_piece, have_all, have_none, reject_request, allowed_fast, extended,
  ExtensionMessage, handshake, peer_exchange, metadata, unknown, id_byte, try_from, parse,
  parse_payload, parse_index, parse_block, parse_extension, encode, encode_extension,
  encode_with_length,
}

-- Three numbers of 32 bits.
abbrev pub IsBlock : ℕ → ℕ → ℕ → Type 0
IsBlock index begin len = (index < 2 ^ 32) × (begin < 2 ^ 32) × (len < 2 ^ 32)

-- The numbers fit the widths of their fields.
unfoldable pub InRange : Message → Type 0
InRange (have piece_index) = piece_index < 2 ^ 32
InRange (request index begin len) = IsBlock index begin len
InRange (piece index begin bytes) = (index < 2 ^ 32) × (begin < 2 ^ 32)
InRange (cancel index begin len) = IsBlock index begin len
InRange (port number) = number < 2 ^ 16
InRange (suggest_piece piece_index) = piece_index < 2 ^ 32
InRange (reject_request index begin len) = IsBlock index begin len
InRange (allowed_fast piece_index) = piece_index < 2 ^ 32
InRange _ = Unit

-- What the other side reads of an extension message: it knows the handshake alone by its number.
unfoldable pub received_extension : ExtensionMessage → ExtensionMessage
received_extension (handshake bytes) = handshake bytes
received_extension (peer_exchange bytes) = unknown 1 bytes
received_extension (metadata msg_type index bytes) = unknown 2 (msg_type ∷ (put_u32 index ++ bytes))
received_extension (unknown id bytes) = if id == 0 then handshake bytes else unknown id bytes

unfoldable pub received : Message → Message
unfolding received_extension
received (extended ext) = extended (received_extension ext)
received message = message

index-put_u32 : (n : ℕ) → n < 2 ^ 32 → (get_u32 (put_u32 n)).0 ≡ n
index-put_u32 n h = ap (λ r. r.0) (get_u32-put_u32 n [] h)

-- The parser reads back three numbers.
parse_block-put :
    (wrong_size : String) (message : ℕ → ℕ → ℕ → Message) (index begin len : ℕ)
    → IsBlock index begin len
    → parse_block wrong_size message (put_u32 index ++ put_u32 begin ++ put_u32 len)
      ≡ ok (message index begin len)
unfolding parse_block
parse_block-put wrong_size message index begin len h =
    rw
      (
        get_u32-put_u32 index (put_u32 begin ++ put_u32 len) h.0,
        get_u32-put_u32 begin (put_u32 len) h.1,
        index-put_u32 len h.2,
      )
      refl

parse_index-put :
    (wrong_size : String) (message : ℕ → Message) (n : ℕ)
    → n < 2 ^ 32
    → parse_index wrong_size message (put_u32 n) ≡ ok (message n)
unfolding parse_index
parse_index-put wrong_size message n h = ap (λ m. ok (message m)) (index-put_u32 n h)

parse_extension-encode :
    (ext : ExtensionMessage) → parse_extension (encode_extension ext) ≡ ok (received_extension ext)
unfolding parse_extension encode_extension received_extension
parse_extension-encode (handshake bytes) = refl
parse_extension-encode (peer_exchange bytes) = refl
parse_extension-encode (metadata msg_type index bytes) = refl
parse_extension-encode (unknown id bytes) = ground arith

-- An encoded message whose numbers are in range is parsed to the message that the other side sees:
-- the same one, but an extension message other than the handshake comes as `unknown`.
pub parse-encode : (m : Message) → InRange m → parse (encode m) ≡ ok (received m)
unfolding parse encode InRange received id_byte try_from parse_payload parse_index parse_block
parse-encode keep_alive h = refl
parse-encode choke h = refl
parse-encode unchoke h = refl
parse-encode interested h = refl
parse-encode not_interested h = refl
parse-encode (have n) h = parse_index-put "" have n h
parse-encode (bitfield bits) h = refl
parse-encode (request index begin len) h = parse_block-put "" request index begin len h
parse-encode (piece index begin bytes) h =
    rw (get_u32-put_u32 index (put_u32 begin ++ bytes) h.0, get_u32-put_u32 begin bytes h.1)
      (ground arith)
parse-encode (cancel index begin len) h = parse_block-put "" cancel index begin len h
parse-encode (port number) h = ap (λ n. ok (port n)) (get_u16-put_u16 number h)
parse-encode (suggest_piece n) h = parse_index-put "" suggest_piece n h
parse-encode have_all h = refl
parse-encode have_none h = refl
parse-encode (reject_request index begin len) h =
    parse_block-put "" reject_request index begin len h
parse-encode (allowed_fast n) h = parse_index-put "" allowed_fast n h
parse-encode (extended ext) h = rw (parse_extension-encode ext) refl

-- In a stream, the length in front of an encoded message cuts it off from what follows, and what it
-- cuts off is parsed to the message that the other side sees.
pub frame-encode_with_length :
    (m : Message) (rest : Bytes)
    → InRange m
    → length (encode m) < 2 ^ 32
    → let (len, body) = get_u32 (encode_with_length m ++ rest) in
      (parse (take len body) ≡ ok (received m)) × (drop len body ≡ rest)
unfolding encode_with_length
frame-encode_with_length m rest r h =
    rw (get_u32-put_u32 (length (encode m)) (encode m ++ rest) h)
      (rw (take-append (encode m) rest) (parse-encode m r), drop-append (encode m) rest)
