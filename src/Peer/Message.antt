-- ===== src/Peer/Message.antt =====
-- src-tauri/crates/oxidebt-peer/src/message.rs: the messages that peers exchange after the
-- handshake, their parser and their encoder.
pub mod RoundTrip
pub mod Sound
mod Tests
use rbitt.Prelude.{
  ℕ, ◌+◌, ◌<◌, Bool, true, false, not, String, [], ◌∷◌, ◌++◌, Bytes, ltb, ◌==◌, if◌then◌else◌,
  length,
}
use rbitt.Peer.Error.{Result, ok, err, ◌>>=◌, invalid_message, unknown_message_id}
use rbitt.Peer.Wire.{put_u32, get_u32, put_u16, get_u16}

pub data MessageId : Type 0 where
  choke unchoke interested not_interested have bitfield request piece cancel port : MessageId
  suggest_piece have_all have_none reject_request allowed_fast extended : MessageId
  hash_request hashes hash_reject : MessageId

-- `id as u8`
unfoldable pub id_byte : MessageId → ℕ
id_byte choke = 0
id_byte unchoke = 1
id_byte interested = 2
id_byte not_interested = 3
id_byte have = 4
id_byte bitfield = 5
id_byte request = 6
id_byte piece = 7
id_byte cancel = 8
id_byte port = 9
id_byte suggest_piece = 13
id_byte have_all = 14
id_byte have_none = 15
id_byte reject_request = 16
id_byte allowed_fast = 17
id_byte extended = 20
id_byte hash_request = 21
id_byte hashes = 22
id_byte hash_reject = 23

unfoldable pub try_from : ℕ → Result MessageId
try_from value =
    if value == 0
    then ok choke
    else if value == 1
    then ok unchoke
    else if value == 2
    then ok interested
    else if value == 3
    then ok not_interested
    else if value == 4
    then ok have
    else if value == 5
    then ok bitfield
    else if value == 6
    then ok request
    else if value == 7
    then ok piece
    else if value == 8
    then ok cancel
    else if value == 9
    then ok port
    else if value == 13
    then ok suggest_piece
    else if value == 14
    then ok have_all
    else if value == 15
    then ok have_none
    else if value == 16
    then ok reject_request
    else if value == 17
    then ok allowed_fast
    else if value == 20
    then ok extended
    else if value == 21
    then ok hash_request
    else if value == 22
    then ok hashes
    else if value == 23
    then ok hash_reject
    else err (unknown_message_id value)

pub data ExtensionMessage : Type 0 where
  handshake : Bytes → ExtensionMessage
  peer_exchange : Bytes → ExtensionMessage
  metadata : (msg_type index : ℕ) (bytes : Bytes) → ExtensionMessage
  unknown : (id : ℕ) (bytes : Bytes) → ExtensionMessage

pub data Message : Type 0 where
  keep_alive choke unchoke interested not_interested : Message
  have : (piece_index : ℕ) → Message
  bitfield : Bytes → Message
  request : (index begin len : ℕ) → Message
  piece : (index begin : ℕ) (bytes : Bytes) → Message
  cancel : (index begin len : ℕ) → Message
  port : ℕ → Message
  suggest_piece : (piece_index : ℕ) → Message
  have_all have_none : Message
  reject_request : (index begin len : ℕ) → Message
  allowed_fast : (piece_index : ℕ) → Message
  extended : ExtensionMessage → Message

-- `ExtensionMessage::parse`
unfoldable pub parse_extension : Bytes → Result ExtensionMessage
parse_extension [] = err (invalid_message "empty extension message")
parse_extension (ext_id ∷ payload) =
    if ext_id == 0 then ok (handshake payload) else ok (unknown ext_id payload)

-- `ExtensionMessage::encode`
unfoldable pub encode_extension : ExtensionMessage → Bytes
encode_extension (handshake bytes) = 0 ∷ bytes
encode_extension (peer_exchange bytes) = 1 ∷ bytes
encode_extension (metadata msg_type index bytes) = 2 ∷ msg_type ∷ (put_u32 index ++ bytes)
encode_extension (unknown id bytes) = id ∷ bytes

-- A payload of four bytes, read as one number.
unfoldable pub parse_index : String → (ℕ → Message) → Bytes → Result Message
parse_index wrong_size message payload =
    if not (length payload == 4)
    then err (invalid_message wrong_size)
    else ok (message (get_u32 payload).0)

-- A payload of twelve bytes, read as three numbers.
unfoldable pub parse_block : String → (ℕ → ℕ → ℕ → Message) → Bytes → Result Message
parse_block wrong_size message payload =
    if not (length payload == 12)
    then err (invalid_message wrong_size)
    else let (index, buf) = get_u32 payload in
      let (begin, buf') = get_u32 buf in ok (message index begin (get_u32 buf').0)

-- The match on the identifier in `Message::parse`.
unfoldable pub parse_payload : MessageId → Bytes → Result Message
unfolding parse_index parse_block
parse_payload choke payload = ok choke
parse_payload unchoke payload = ok unchoke
parse_payload interested payload = ok interested
parse_payload not_interested payload = ok not_interested
parse_payload have payload = parse_index "have message wrong size" have payload
parse_payload bitfield payload = ok (bitfield payload)
parse_payload request payload = parse_block "request message wrong size" request payload
parse_payload piece payload =
    if ltb (length payload) 8
    then err (invalid_message "piece message too small")
    else let (index, buf) = get_u32 payload in
      let (begin, bytes) = get_u32 buf in ok (piece index begin bytes)
parse_payload cancel payload = parse_block "cancel message wrong size" cancel payload
parse_payload port payload =
    if not (length payload == 2)
    then err (invalid_message "port message wrong size")
    else ok (port (get_u16 payload))
parse_payload suggest_piece payload =
    parse_index "suggest piece message wrong size" suggest_piece payload
parse_payload have_all payload = ok have_all
parse_payload have_none payload = ok have_none
parse_payload reject_request payload =
    parse_block "reject request message wrong size" reject_request payload
parse_payload allowed_fast payload =
    parse_index "allowed fast message wrong size" allowed_fast payload
parse_payload extended payload = parse_extension payload >>= λ ext. ok (extended ext)
parse_payload _ payload = err (invalid_message "unhandled message type")

unfoldable pub parse : Bytes → Result Message
parse [] = ok keep_alive
parse (id ∷ payload) = try_from id >>= λ message_id. parse_payload message_id payload

unfoldable pub encode : Message → Bytes
unfolding id_byte
encode keep_alive = []
encode choke = id_byte choke ∷ []
encode unchoke = id_byte unchoke ∷ []
encode interested = id_byte interested ∷ []
encode not_interested = id_byte not_interested ∷ []
encode (have piece_index) = id_byte have ∷ put_u32 piece_index
encode (bitfield bits) = id_byte bitfield ∷ bits
encode (request index begin len) = id_byte request ∷ (put_u32 index ++ put_u32 begin ++ put_u32 len)
encode (piece index begin bytes) = id_byte piece ∷ (put_u32 index ++ put_u32 begin ++ bytes)
encode (cancel index begin len) = id_byte cancel ∷ (put_u32 index ++ put_u32 begin ++ put_u32 len)
encode (port number) = id_byte port ∷ put_u16 number
encode (suggest_piece piece_index) = id_byte suggest_piece ∷ put_u32 piece_index
encode have_all = id_byte have_all ∷ []
encode have_none = id_byte have_none ∷ []
encode (reject_request index begin len) =
    id_byte reject_request ∷ (put_u32 index ++ put_u32 begin ++ put_u32 len)
encode (allowed_fast piece_index) = id_byte allowed_fast ∷ put_u32 piece_index
encode (extended ext) = id_byte extended ∷ encode_extension ext

-- The cast `as u32` keeps the lowest 32 bits, and so does `put_u32`.
unfoldable pub encode_with_length : Message → Bytes
encode_with_length message = let payload = encode message in put_u32 (length payload) ++ payload
