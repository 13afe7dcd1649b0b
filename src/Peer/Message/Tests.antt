-- ===== src/Peer/Message/Tests.antt =====
-- Runs of the messages on concrete inputs, and their theorems at such inputs.
use rbitt.Prelude.{◌≡◌, refl, [], ◌∷◌, ◌++◌, Bytes, IsByte, All, take, drop, arith}
use rbitt.Peer.Error.{ok, err, invalid_message, unknown_message_id}
use rbitt.Peer.Wire.{get_u32}
use rbitt.Peer.Message.{
  Message, choke, request, extended, peer_exchange, unknown, parse, encode, encode_with_length,
}
use rbitt.Peer.Message.RoundTrip.{InRange, received, parse-encode, frame-encode_with_length}
use rbitt.Peer.Message.Sound.{Encodes, encode-parse}

abbrev some_request : Message
some_request = request 258 16384 100

abbrev some_bytes : Bytes
some_bytes = 6 ∷ 0 ∷ 0 ∷ 1 ∷ 2 ∷ 0 ∷ 0 ∷ 64 ∷ 0 ∷ 0 ∷ 0 ∷ 0 ∷ 100 ∷ []

request_bytes : encode some_request ≡ some_bytes
unfolding encode
request_bytes = refl

parse-some_bytes : parse some_bytes ≡ ok some_request
unfolding parse rbitt.Peer.Message.try_from rbitt.Peer.Message.parse_payload get_u32
parse-some_bytes = refl

refuses_unknown : parse (10 ∷ []) ≡ err (unknown_message_id 10)
unfolding parse rbitt.Peer.Message.try_from
refuses_unknown = refl

refuses_unhandled : parse (22 ∷ []) ≡ err (invalid_message "unhandled message type")
unfolding parse rbitt.Peer.Message.try_from rbitt.Peer.Message.parse_payload
refuses_unhandled = refl

refuses_size : parse (4 ∷ 1 ∷ []) ≡ err (invalid_message "have message wrong size")
unfolding parse rbitt.Peer.Message.try_from rbitt.Peer.Message.parse_payload
refuses_size = refl

ignores_rest : parse (0 ∷ 1 ∷ []) ≡ ok choke
unfolding parse rbitt.Peer.Message.try_from rbitt.Peer.Message.parse_payload
ignores_rest = refl

pex_comes_unknown :
    parse (encode (extended (peer_exchange (7 ∷ [])))) ≡ ok (extended (unknown 1 (7 ∷ [])))
unfolding parse encode rbitt.Peer.Message.try_from rbitt.Peer.Message.parse_payload
    rbitt.Peer.Message.parse_extension rbitt.Peer.Message.encode_extension
pex_comes_unknown = refl

some_request-InRange : InRange some_request
unfolding InRange
some_request-InRange = (omega arith, omega arith, omega arith)

some_bytes-IsBytes : All IsByte some_bytes
some_bytes-IsBytes = ground arith

parse-encode_example : parse (encode some_request) ≡ ok (received some_request)
parse-encode_example = parse-encode some_request some_request-InRange

frame-encode_with_length_example :
    let (len, body) = get_u32 (encode_with_length some_request ++ some_bytes) in
    (parse (take len body) ≡ ok (received some_request)) × (drop len body ≡ some_bytes)
frame-encode_with_length_example =
    frame-encode_with_length some_request some_bytes some_request-InRange
      (rw request_bytes (omega arith))

encode-parse_example : Encodes some_bytes some_request
encode-parse_example = encode-parse some_bytes some_bytes-IsBytes parse-some_bytes
