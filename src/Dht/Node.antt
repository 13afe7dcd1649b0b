-- ===== src/Dht/Node.antt =====
-- src-tauri/crates/oxidebt-dht/src/node.rs: node identifiers, their distance, and the nodes. An
-- identifier is twenty bytes (`IsId`). A point in time is a number of nanoseconds, and an operation
-- that asks for the present time takes it as `now`. `generate` and `generate_secure` draw random
-- numbers and are left out.
pub mod Distance
pub mod Compact
use rbitt.Prelude.{
  ℕ, suc, ◌+◌, ◌-◌, ◌*◌, ◌/◌, ◌%◌, ◌^◌, ◌≡◌, Bool, not, ◌&&◌, ◌||◌, Option, none, some, [], ◌∷◌,
  ◌++◌, Bytes, IsByte, All, ltb, leb, ◌==◌, if◌then◌else◌, length, get_or, take, drop,
}
use rbitt.Prelude.Bits.{leading_zeros}
use rbitt.Prelude.Same.{same_bytes}
use Prim.Native.Nat.{bit_xor}
use rbitt.Net.{SocketAddr, v4, v6}
use rbitt.Bencode.Value.{DecodeError}
use rbitt.Peer.Wire.{put_u16, get_u16}

abbrev pub NodeId : Type 0
NodeId = Bytes

-- `[u8; 20]`
abbrev pub IsId : NodeId → Type 0
IsId id = All IsByte id × (length id ≡ 20)

-- `DhtError`, as far as node.rs and message.rs give it, without its texts
pub data DhtError : Type 0 where
  bencode : DecodeError → DhtError
  invalid_message : DhtError
  invalid_node_id_length : ℕ → DhtError

pub data IdResult : Type 0 where
  valid : NodeId → IdResult
  invalid : DhtError → IdResult

unfoldable pub from_bytes : Bytes → IdResult
from_bytes bytes =
    if not (length bytes == 20)
    then invalid (invalid_node_id_length (length bytes))
    else valid bytes

-- Both identifiers have twenty bytes, so that the walk ends at both ends at once.
unfoldable pub distance : NodeId → NodeId → Bytes
distance [] b = []
distance (x ∷ a) [] = []
distance (x ∷ a) (y ∷ b) = bit_xor x y ∷ distance a b

-- The loop of `bucket_index`, with `dist` what is left of the distance from its byte `i` on.
unfoldable pub leading_bit : ℕ → Bytes → ℕ
leading_bit i [] = 159
leading_bit i (byte ∷ dist) =
    let rest = leading_bit (suc i) dist in
    if not (byte == 0) then i * 8 + leading_zeros byte else rest

unfoldable pub bucket_index : NodeId → NodeId → ℕ
unfolding leading_bit distance
bucket_index self other = leading_bit 0 (distance self other)

pub record Node : Type 0 where
  pub id : NodeId
  pub addr : SocketAddr
  pub last_seen : ℕ
  pub last_query : Option ℕ
  pub failed_queries : ℕ

unfoldable pub new : NodeId → SocketAddr → ℕ → Node
new id addr now = record {
  id = id;
  addr = addr;
  last_seen = now;
  last_query = none;
  failed_queries = 0;
}

unfoldable pub touch : ℕ → Node → Node
touch now node = record node { last_seen = now; failed_queries = 0 }

-- The count is a `u32`, which wraps in a release build.
unfoldable pub fail : Node → Node
fail node = record node { failed_queries = (node.failed_queries + 1) % 2 ^ 32 }

-- `last_seen.elapsed().as_secs()`, which is 0 for a time ahead of the present one
abbrev pub elapsed_secs : ℕ → ℕ → ℕ
elapsed_secs now since = (now - since) / 1000000000

unfoldable pub is_good : ℕ → Node → Bool
is_good now node = node.failed_queries == 0 && ltb (elapsed_secs now node.last_seen) (15 * 60)

unfoldable pub is_bad : ℕ → Node → Bool
is_bad now node = leb 3 node.failed_queries || ltb (60 * 60) (elapsed_secs now node.last_seen)

unfoldable pub to_compact : Node → Option Bytes
to_compact node = elim (node.addr) [
  | v4 octets port ↦ some (node.id ++ (octets ++ put_u16 port))
  | v6 octets port ↦ none
]

unfoldable pub from_compact : Bytes → ℕ → Option Node
unfolding new
from_compact bytes now =
    if not (length bytes == 26) then none else elim (from_bytes (take 20 bytes)) [
      | invalid e ↦ none
      | valid node_id ↦
          some (new node_id (v4 (take 4 (drop 20 bytes)) (get_u16 (drop 24 bytes))) now)
    ]
