-- ===== src/Dht/Message/Parse.antt =====
-- src-tauri/crates/oxidebt-dht/src/message.rs: reading a message.
use rbitt.Prelude.{
  ℕ, ◌-◌, ◌%◌, ◌^◌, Bool, false, Option, none, some, List, [], ◌∷◌, Bytes, codes, ◌==◌,
  if◌then◌else◌, length, take, drop,
}
use rbitt.Prelude.Int.{ℤ, pos, negsuc}
use rbitt.Prelude.Same.{same_bytes}
use rbitt.Bencode.Text.{is_utf8}
use rbitt.Bencode.Value.{
  Value, Items, Fields, bytes, integer, list, dict, no_items, item, no_fields, insert, find,
  as_bytes, as_integer, as_list, as_dict,
}
use rbitt.Bencode.Value
use rbitt.Bencode.Decode
use rbitt.Net.{SocketAddr, v4}
use rbitt.Peer.Wire.{get_u16}
use rbitt.Tracker.Response.{chunks_exact}
use rbitt.Dht.Node.{
  NodeId, Node, DhtError, invalid_message, valid, invalid, from_bytes, from_compact, to_compact,
}
use rbitt.Dht.Node
use rbitt.Dht.Message.{
  DhtQuery, DhtResponse, DhtMessage, Result, ok, err, out_of_fuel, ping, find_node, get_peers,
  announce_peer, pong, found_nodes, got_peers, error, ◌>>=◌, required, bytes_at,
}

-- `Value::as_str`
unfoldable pub as_str : Value → Option Bytes
as_str (bytes b) = if is_utf8 b then some b else none
as_str _ = none

-- `NodeId::from_bytes(b).ok()`
unfoldable pub to_id : Bytes → Option NodeId
unfolding from_bytes
to_id b = elim (from_bytes b) [ valid id ↦ some id | invalid e ↦ none ]

unfoldable pub to_hash : Bytes → Option Bytes
to_hash b = if length b == 20 then some b else none

-- `i as u16`
unfoldable pub to_u16 : ℤ → ℕ
to_u16 (pos n) = n % 2 ^ 16
to_u16 (negsuc n) = 2 ^ 16 - 1 - n % 2 ^ 16

unfoldable pub is_one : Option ℤ → Bool
is_one (some (pos n)) = n == 1
is_one _ = false

unfoldable pub parse_announce : Fields → Result DhtQuery
parse_announce args = required (bytes_at (codes "info_hash") args >>= to_hash) λ info_hash.
    required (find (codes "port") args >>= as_integer) λ port.
      required (bytes_at (codes "token") args) λ token. ok (
        announce_peer info_hash (to_u16 port) token
          (is_one (find (codes "implied_port") args >>= as_integer)))

-- The query of a given name.
unfoldable pub query_of : Bytes → Fields → Result DhtQuery
unfolding parse_announce
query_of name args =
    if same_bytes name (codes "ping")
    then ok ping
    else if same_bytes name (codes "find_node")
    then (required (bytes_at (codes "target") args >>= to_id) λ target. ok (find_node target))
    else if same_bytes name (codes "get_peers")
    then (required (bytes_at (codes "info_hash") args >>= to_hash)
        λ info_hash. ok (get_peers info_hash))
    else if same_bytes name (codes "announce_peer")
    then parse_announce args
    else err invalid_message

unfoldable pub parse_query : Bytes → Fields → Result DhtMessage
unfolding query_of
parse_query transaction_id fields = required (find (codes "q") fields >>= as_str) λ query_name.
    required (find (codes "a") fields >>= as_dict) λ args. elim (query_of query_name args) [
      | err e ↦ err e
      | out_of_fuel ↦ out_of_fuel
      | ok query ↦ ok (record {
        transaction_id = transaction_id;
        sender_id = bytes_at (codes "id") args >>= to_id;
        query = some (query_name, query);
        response = none;
      })
    ]

-- `filter_map(Node::from_compact)`
unfoldable pub nodes_of : ℕ → List Bytes → List Node
nodes_of now [] = []
nodes_of now (chunk ∷ chunks) = elim (from_compact chunk now) [
  | none ↦ nodes_of now chunks
  | some node ↦ node ∷ nodes_of now chunks
]

unfoldable pub nodes_from : ℕ → Bytes → List Node
unfolding nodes_of
nodes_from now b = nodes_of now (chunks_exact (length b) 26 b)

-- The addresses among the values: the byte strings of six bytes.
unfoldable pub addrs_of : Items → List SocketAddr
addrs_of no_items = []
addrs_of (item value values) =
    let rest = addrs_of values in
    elim (as_bytes value) [
      | none ↦ rest
      | some b ↦ if length b == 6 then v4 (take 4 b) (get_u16 (drop 4 b)) ∷ rest else rest
    ]

-- Which response it is shows by the entries that are present.
unfoldable pub response_of :
    NodeId → Option (List Node) → Option (List SocketAddr) → Option Bytes → DhtResponse
response_of id nodes (some peers) none = got_peers id [] (some peers) nodes
response_of id nodes (some peers) (some token) = got_peers id token (some peers) nodes
response_of id nodes none (some token) = got_peers id token none nodes
response_of id (some nodes) none none = found_nodes id nodes
response_of id none none none = pong id

unfoldable pub parse_response : ℕ → Bytes → Fields → Result DhtMessage
unfolding nodes_from addrs_of response_of
parse_response now transaction_id fields = required (find (codes "r") fields >>= as_dict) λ resp.
    required (bytes_at (codes "id") resp >>= to_id) λ sender_id. ok (record {
      transaction_id = transaction_id;
      sender_id = some sender_id;
      query = none;
      response = some (
          response_of sender_id (bytes_at (codes "nodes") resp >>= λ b. some (nodes_from now b))
            (find (codes "values") resp >>= as_list >>= λ values. some (addrs_of values))
            (bytes_at (codes "token") resp));
    })

unfoldable pub code_of : Items → ℤ
code_of (item (integer code) values) = code
code_of _ = pos 0

unfoldable pub text_of : Items → Bytes
text_of (item code (item text values)) = elim (as_str text) [
  | none ↦ codes "unknown error"
  | some s ↦ s
]
text_of _ = codes "unknown error"

unfoldable pub parse_error : Bytes → Fields → Result DhtMessage
unfolding code_of text_of
parse_error transaction_id fields = required (find (codes "e") fields >>= as_list) λ values.
    ok (record {
      transaction_id = transaction_id;
      sender_id = none;
      query = none;
      response = some (error (code_of values) (text_of values));
    })

-- `parse`, once the bytes are decoded
unfoldable pub parse_value : ℕ → Value → Result DhtMessage
unfolding parse_query parse_response parse_error
parse_value now value = required (as_dict value) λ fields.
    required (bytes_at (codes "t") fields) λ transaction_id.
      required (find (codes "y") fields >>= as_str) λ msg_type.
        if same_bytes msg_type (codes "q")
        then parse_query transaction_id fields
        else if same_bytes msg_type (codes "r")
        then parse_response now transaction_id fields
        else if same_bytes msg_type (codes "e")
        then parse_error transaction_id fields
        else err invalid_message

unfoldable pub parse : ℕ → Bytes → Result DhtMessage
unfolding parse_value
parse now b = elim (Decode.decode b) [
  | Value.err e ↦ err (Node.bencode e)
  | Value.out_of_fuel ↦ out_of_fuel
  | Value.ok value ↦ parse_value now value
]
