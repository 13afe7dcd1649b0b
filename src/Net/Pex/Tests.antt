-- ===== src/Net/Pex/Tests.antt =====
-- A message with peers of both versions, and the round trip of it.
use rbitt.Prelude.{◌≡◌, refl, true, [], ◌∷◌, replicate, arith}
use rbitt.Net.{SocketAddr, v4, v6}
use rbitt.Net.Pex.{
  PexFlags, no_flags, PexPeer, PexMessage, encode_added, encode_added_flags, encode_added6,
  encode_added6_flags, encode_dropped, encode_dropped6, decode_added, decode_added6, decode_dropped,
  decode_dropped6,
}
use rbitt.Net.Pex.RoundTrip.{IsMessage, decode_added-encode_added}

abbrev seeding : PexFlags
seeding = record no_flags { seed = true; connectable = true }

abbrev four : SocketAddr
four = v4 (10 ∷ 0 ∷ 0 ∷ 7 ∷ []) 6881

abbrev six : SocketAddr
six = v6 (replicate 16 1) 51413

abbrev message : PexMessage
message = record {
  added = record { addr = four; flags = seeding } ∷ record { addr = four; flags = no_flags } ∷ [];
  added6 = record { addr = six; flags = seeding } ∷ [];
  dropped = four ∷ [];
  dropped6 = six ∷ [];
}

flag_bytes : encode_added_flags message ≡ 0x12 ∷ 0 ∷ []
unfolding encode_added_flags
flag_bytes = refl

message-IsMessage : IsMessage message
unfolding rbitt.Net.Pex.RoundTrip.is_v4 rbitt.Net.Pex.RoundTrip.octets_of
    rbitt.Net.Pex.RoundTrip.port_of
message-IsMessage = record {
  added = ((refl, refl, omega arith), ((refl, refl, omega arith), tt));
  added6 = ((refl, refl, omega arith), tt);
  dropped = ((refl, refl, omega arith), tt);
  dropped6 = ((refl, refl, omega arith), tt);
}

decode_added-encode_added_example :
    (decode_added (encode_added message) (encode_added_flags message) ≡ message.added)
    × (decode_added6 (encode_added6 message) (encode_added6_flags message) ≡ message.added6)
    × (decode_dropped (encode_dropped message) ≡ message.dropped)
    × (decode_dropped6 (encode_dropped6 message) ≡ message.dropped6)
decode_added-encode_added_example = decode_added-encode_added message message-IsMessage
