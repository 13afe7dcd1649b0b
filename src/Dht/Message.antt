-- ===== src/Dht/Message.antt =====
-- src-tauri/crates/oxidebt-dht/src/message.rs: the messages of the DHT, which are bencoded
-- dictionaries. A `String` is the list of its bytes, which are UTF-8. The present time, which a node
-- is made with, is the argument `now`.
pub mod Parse
pub mod Encode
pub mod RoundTrip
mod Tests
use rbitt.Prelude.{
  ℕ, zero, suc, ◌-◌, ◌%◌, ◌^◌, Bool, true, false, Option, none, some, List, [], ◌∷◌, ◌++◌, Bytes,
  codes, ◌==◌, if◌then◌else◌, length, take, drop,
}
use rbitt.Prelude.Int.{ℤ, pos, negsuc}
use rbitt.Prelude.Same.{same_bytes}
use rbitt.Bencode.Text.{is_utf8}
use rbitt.Bencode.Value.{
  Value, Items, Fields, bytes, integer, list, dict, no_items, item, no_fields, insert, find,
  as_bytes, as_integer, as_list, as_dict,
}
use rbitt.Bencode.Value
use rbitt.Bencode.Decode
use rbitt.Net.{SocketAddr, v4, v6}
use rbitt.Peer.Wire.{put_u16, get_u16}
use rbitt.Tracker.Response.{chunks_exact}
use rbitt.Dht.Node.{
  NodeId, Node, DhtError, invalid_message, valid, invalid, from_bytes, from_compact, to_compact,
}
use rbitt.Dht.Node

pub data DhtQuery : Type 0 where
  ping : DhtQuery
  find_node : NodeId → DhtQuery
  get_peers : Bytes → DhtQuery
  announce_peer : Bytes → ℕ → Bytes → Bool → DhtQuery

pub data DhtResponse : Type 0 where
  pong : NodeId → DhtResponse
  found_nodes : NodeId → List Node → DhtResponse
  got_peers : NodeId → Bytes → Option (List SocketAddr) → Option (List Node) → DhtResponse
  announced : NodeId → DhtResponse
  error : ℤ → Bytes → DhtResponse

pub record DhtMessage : Type 0 where
  pub transaction_id : Bytes
  pub sender_id : Option NodeId
  pub query : Option (Bytes × DhtQuery)
  pub response : Option DhtResponse

-- `out_of_fuel` stands for the same result of the decoder, which it never gives.
pub data Result (A : Type 0) : Type 0 where
  ok : A → Result A
  err : DhtError → Result A
  out_of_fuel : Result A

infixl 5 ◌>>=◌
abbrev pub ◌>>=◌ : {A B : Type 0} → Option A → (A → Option B) → Option B
none >>= f = none
some a >>= f = f a

-- `.ok_or_else(..)?`
abbrev pub required : {A B : Type 0} → Option A → (A → Result B) → Result B
required none f = err invalid_message
required (some a) f = f a

abbrev pub bytes_at : Bytes → Fields → Option Bytes
bytes_at key fields = find key fields >>= as_bytes

-- The four constructors `ping`, `find_node`, `get_peers` and `announce_peer` of the source.
unfoldable pub make_query : Bytes → DhtQuery → Bytes → NodeId → DhtMessage
make_query name query transaction_id our_id = record {
  transaction_id = transaction_id;
  sender_id = some our_id;
  query = some (name, query);
  response = none;
}

unfoldable pub make_announce : NodeId → Bytes → Bytes → ℕ → Bytes → DhtMessage
unfolding make_query
make_announce our_id transaction_id info_hash port token =
    make_query (codes "announce_peer") (announce_peer info_hash port token false) transaction_id
      our_id
