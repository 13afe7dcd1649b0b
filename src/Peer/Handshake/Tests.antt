-- ===== src/Peer/Handshake/Tests.antt =====
-- Runs of the handshake on concrete inputs, and its theorems at such inputs.
use rbitt.Prelude.{◌≡◌, refl, ◌↔◌, true, [], ◌∷◌, Bytes, replicate}
use rbitt.Peer.Error.{
  ok, err, protocol_mismatch, invalid_handshake_length, invalid_handshake_pstrlen,
}
use rbitt.Peer.Handshake.{new, parse, encode}
use rbitt.Peer.Handshake.RoundTrip.{IsSized, parse_iff}

abbrev some_hash : Bytes
some_hash = replicate 20 0xab

abbrev some_id : Bytes
some_id = replicate 20 0x2d

refuses_length : parse (19 ∷ []) ≡ err (invalid_handshake_length 1)
unfolding parse
refuses_length = refl

refuses_pstrlen : parse (replicate 68 18) ≡ err (invalid_handshake_pstrlen 18)
unfolding parse
refuses_pstrlen = refl

refuses_protocol : parse (replicate 68 19) ≡ err protocol_mismatch
unfolding parse rbitt.Prelude.Same.same_bytes
refuses_protocol = refl

parse_iff_example : (parse (encode (new some_hash some_id)) ≡ ok (new some_hash some_id)) ↔ (
    (encode (new some_hash some_id) ≡ encode (new some_hash some_id))
    × IsSized (new some_hash some_id))
parse_iff_example = parse_iff (encode (new some_hash some_id)) (new some_hash some_id)
