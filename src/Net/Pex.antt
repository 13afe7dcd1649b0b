-- ===== src/Net/Pex.antt =====
-- src-tauri/crates/oxidebt-net/src/pex.rs: the messages in which peers tell each other of peers.
pub mod RoundTrip
mod Tests
use Prim.Native.Nat.{bit_and, bit_or}
use rbitt.Prelude.{
  ℕ, zero, suc, ◌+◌, ◌-◌, Bool, true, false, not, ◌&&◌, List, [], ◌∷◌, ◌++◌, Bytes, ltb, leb, ◌==◌,
  if◌then◌else◌, length, take, drop,
}
use rbitt.Net.{SocketAddr, v4, v6}
use rbitt.Peer.Wire.{put_u16, get_u16}

pub record PexFlags : Type 0 where
  pub encryption : Bool
  pub seed : Bool
  pub utp : Bool
  pub holepunch : Bool
  pub connectable : Bool

abbrev pub no_flags : PexFlags
no_flags = record {
  encryption = false;
  seed = false;
  utp = false;
  holepunch = false;
  connectable = false;
}

unfoldable pub from_byte : ℕ → PexFlags
from_byte b = record {
  encryption = not (bit_and b 0x01 == 0);
  seed = not (bit_and b 0x02 == 0);
  utp = not (bit_and b 0x04 == 0);
  holepunch = not (bit_and b 0x08 == 0);
  connectable = not (bit_and b 0x10 == 0);
}

-- `if flag { b |= bit; }`
abbrev pub add_bit : Bool → ℕ → ℕ → ℕ
add_bit flag bit b = if flag then bit_or b bit else b

unfoldable pub to_byte : PexFlags → ℕ
to_byte f = add_bit f.connectable 0x10 (
    add_bit f.holepunch 0x08
      (add_bit f.utp 0x04 (add_bit f.seed 0x02 (add_bit f.encryption 0x01 0))))

pub record PexPeer : Type 0 where
  pub addr : SocketAddr
  pub flags : PexFlags

pub record PexMessage : Type 0 where
  pub added : List PexPeer
  pub added6 : List PexPeer
  pub dropped : List SocketAddr
  pub dropped6 : List SocketAddr

unfoldable pub new : PexMessage
new = record { added = []; added6 = []; dropped = []; dropped6 = [] }

unfoldable pub add_peer : PexMessage → PexPeer → PexMessage
add_peer m peer = elim (peer.addr) [
  | v4 octets port ↦ record m { added = m.added ++ (peer ∷ []) }
  | v6 octets port ↦ record m { added6 = m.added6 ++ (peer ∷ []) }
]

unfoldable pub drop_peer : PexMessage → SocketAddr → PexMessage
drop_peer m (v4 octets port) = record m { dropped = m.dropped ++ (v4 octets port ∷ []) }
drop_peer m (v6 octets port) = record m { dropped6 = m.dropped6 ++ (v6 octets port ∷ []) }

unfoldable pub is_empty : PexMessage → Bool
is_empty m =
    length m.added == 0
    && (length m.added6 == 0 && (length m.dropped == 0 && length m.dropped6 == 0))

-- What one address adds to an encoding, where it is of the right version.
unfoldable pub put_v4 : SocketAddr → Bytes
put_v4 (v4 octets port) = octets ++ put_u16 port
put_v4 (v6 octets port) = []

unfoldable pub put_v6 : SocketAddr → Bytes
put_v6 (v4 octets port) = []
put_v6 (v6 octets port) = octets ++ put_u16 port

unfoldable pub put_addrs : (SocketAddr → Bytes) → List SocketAddr → Bytes
put_addrs put [] = []
put_addrs put (addr ∷ addrs) = put addr ++ put_addrs put addrs

unfoldable pub put_peers : (SocketAddr → Bytes) → List PexPeer → Bytes
put_peers put [] = []
put_peers put (peer ∷ peers) = put peer.addr ++ put_peers put peers

unfoldable pub is_ipv4 : SocketAddr → Bool
is_ipv4 (v4 octets port) = true
is_ipv4 (v6 octets port) = false

unfoldable pub put_flags : (SocketAddr → Bool) → List PexPeer → Bytes
unfolding to_byte
put_flags wanted [] = []
put_flags wanted (peer ∷ peers) =
    let rest = put_flags wanted peers in
    if wanted peer.addr then to_byte peer.flags ∷ rest else rest

unfoldable pub encode_added : PexMessage → Bytes
unfolding put_peers put_v4
encode_added m = put_peers put_v4 m.added

unfoldable pub encode_added_flags : PexMessage → Bytes
unfolding put_flags is_ipv4
encode_added_flags m = put_flags is_ipv4 m.added

unfoldable pub encode_added6 : PexMessage → Bytes
unfolding put_peers put_v6
encode_added6 m = put_peers put_v6 m.added6

unfoldable pub encode_added6_flags : PexMessage → Bytes
unfolding put_flags is_ipv4
encode_added6_flags m = put_flags (λ addr. not (is_ipv4 addr)) m.added6

unfoldable pub encode_dropped : PexMessage → Bytes
unfolding put_addrs put_v4
encode_dropped m = put_addrs put_v4 m.dropped

unfoldable pub encode_dropped6 : PexMessage → Bytes
unfolding put_addrs put_v6
encode_dropped6 m = put_addrs put_v6 m.dropped6

-- The flags of the next peer, and those of the peers behind it.
unfoldable pub next_flags : Bytes → PexFlags × Bytes
unfolding from_byte
next_flags [] = (no_flags, [])
next_flags (b ∷ flags) = (from_byte b, flags)

-- The loop of `decode_dropped` and `decode_dropped6`, over addresses of `octets` bytes each.
unfoldable pub addrs_from : (Bytes → ℕ → SocketAddr) → ℕ → ℕ → Bytes → List SocketAddr
addrs_from make octets zero bytes = []
addrs_from make octets (suc fuel) bytes =
    let rest = addrs_from make octets fuel (drop (octets + 2) bytes) in
    if leb (octets + 2) (length bytes)
    then make (take octets bytes) (get_u16 (drop octets bytes)) ∷ rest
    else []

-- The loop of `decode_added` and `decode_added6`.
unfoldable pub peers_from : (Bytes → ℕ → SocketAddr) → ℕ → ℕ → Bytes → Bytes → List PexPeer
unfolding next_flags
peers_from make octets zero bytes flags = []
peers_from make octets (suc fuel) bytes flags =
    let next = next_flags flags in
    let rest = peers_from make octets fuel (drop (octets + 2) bytes) next.1 in
    if leb (octets + 2) (length bytes)
    then record { addr = make (take octets bytes) (get_u16 (drop octets bytes)); flags = next.0 }
      ∷ rest
    else []

unfoldable pub decode_added : Bytes → Bytes → List PexPeer
unfolding peers_from
decode_added bytes flags = peers_from v4 4 (length bytes) bytes flags

unfoldable pub decode_added6 : Bytes → Bytes → List PexPeer
unfolding peers_from
decode_added6 bytes flags = peers_from v6 16 (length bytes) bytes flags

unfoldable pub decode_dropped : Bytes → List SocketAddr
unfolding addrs_from
decode_dropped bytes = addrs_from v4 4 (length bytes) bytes

unfoldable pub decode_dropped6 : Bytes → List SocketAddr
unfolding addrs_from
decode_dropped6 bytes = addrs_from v6 16 (length bytes) bytes
