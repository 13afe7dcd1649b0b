-- ===== src/Peer/Handshake.antt =====
-- src-tauri/crates/oxidebt-peer/src/message.rs, `Handshake`: the 68 bytes that open a connection.
-- The arrays of fixed size are byte strings, whose sizes `IsSized` states.
pub mod RoundTrip
mod Tests
use rbitt.Prelude.{
  ℕ, ◌+◌, Bool, not, [], ◌∷◌, ◌++◌, Bytes, codes, ◌==◌, if◌then◌else◌, length, take, drop, get_or,
  set, replicate,
}
use Prim.Native.Nat.{bit_and, bit_or}
use rbitt.Prelude.Same.{same_bytes}
use rbitt.Peer.Error.{
  Result, ok, err, invalid_handshake_length, invalid_handshake_pstrlen, protocol_mismatch,
}

abbrev pub protocol_string : Bytes
protocol_string = codes "BitTorrent protocol"

abbrev pub extension_bit : ℕ
extension_bit = 0x10

abbrev pub dht_bit : ℕ
dht_bit = 0x01

abbrev pub fast_extension_bit : ℕ
fast_extension_bit = 0x04

pub record Handshake : Type 0 where
  pub reserved : Bytes
  pub info_hash : Bytes
  pub peer_id : Bytes

-- `reserved[i] |= bit`
abbrev pub turn_on : Bytes → ℕ → ℕ → Bytes
turn_on reserved i bit = set reserved i (bit_or (get_or reserved i 0) bit)

unfoldable pub new : Bytes → Bytes → Handshake
new info_hash peer_id = record {
  reserved =
      turn_on (turn_on (turn_on (replicate 8 0) 5 extension_bit) 7 dht_bit) 7 fast_extension_bit;
  info_hash = info_hash;
  peer_id = peer_id;
}

-- `data[from..to]`
abbrev pub slice : Bytes → ℕ → ℕ → Bytes
slice input from count = take count (drop from input)

unfoldable pub parse : Bytes → Result Handshake
parse input =
    if not (length input == 68)
    then err (invalid_handshake_length (length input))
    else let pstrlen = get_or input 0 0 in
      if not (pstrlen == 19)
      then err (invalid_handshake_pstrlen pstrlen)
      else if not (same_bytes (slice input 1 19) protocol_string)
      then err protocol_mismatch
      else ok (record {
        reserved = slice input 20 8;
        info_hash = slice input 28 20;
        peer_id = slice input 48 20;
      })

unfoldable pub encode : Handshake → Bytes
encode h = 19 ∷ (protocol_string ++ (h.reserved ++ (h.info_hash ++ h.peer_id)))

unfoldable pub supports_extensions : Handshake → Bool
supports_extensions h = not (bit_and (get_or h.reserved 5 0) extension_bit == 0)

unfoldable pub supports_dht : Handshake → Bool
supports_dht h = not (bit_and (get_or h.reserved 7 0) dht_bit == 0)

unfoldable pub supports_fast : Handshake → Bool
supports_fast h = not (bit_and (get_or h.reserved 7 0) fast_extension_bit == 0)
