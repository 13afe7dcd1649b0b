-- ===== src/Dht/Message/Encode.antt =====
-- src-tauri/crates/oxidebt-dht/src/message.rs: writing a message. The value is built first, and then
-- encoded.
use rbitt.Prelude.{Option, none, some, List, [], ◌∷◌, ◌++◌, Bytes, codes, if◌then◌else◌}
use rbitt.Prelude.Int.{pos}
use rbitt.Bencode.Value.{
  Value, Items, Fields, bytes, integer, list, dict, no_items, item, no_fields, insert,
}
use rbitt.Bencode.Encode
use rbitt.Net.{SocketAddr, v4, v6}
use rbitt.Peer.Wire.{put_u16}
use rbitt.Dht.Node.{NodeId, Node, invalid_message, to_compact}
use rbitt.Dht.Message.{
  DhtQuery, DhtResponse, DhtMessage, Result, ok, err, ping, find_node, get_peers, announce_peer,
  pong, found_nodes, got_peers, announced, error,
}

-- What `encode` adds to the arguments of a query.
unfoldable pub put_query : DhtQuery → Fields → Fields
put_query ping args = args
put_query (find_node target) args = insert (codes "target") (bytes target) args
put_query (get_peers info_hash) args = insert (codes "info_hash") (bytes info_hash) args
put_query (announce_peer info_hash port token implied_port) args =
    let first = insert (codes "info_hash") (bytes info_hash) args in
    let second = insert (codes "port") (integer (pos port)) first in
    let third = insert (codes "token") (bytes token) second in
    if implied_port then insert (codes "implied_port") (integer (pos 1)) third else third

unfoldable pub put_sender : Option NodeId → Fields
put_sender none = no_fields
put_sender (some id) = insert (codes "id") (bytes id) no_fields

unfoldable pub query_fields : DhtMessage → Fields → Fields
unfolding put_query put_sender
query_fields m fields = elim (m.query) [
  | none ↦ fields
  | some (name, query) ↦
      let typed = insert (codes "y") (bytes (codes "q")) fields in
      let named = insert (codes "q") (bytes name) typed in
      insert (codes "a") (dict (put_query query (put_sender m.sender_id))) named
]

-- `filter_map(|n| n.to_compact()).flatten()`
unfoldable pub compact_nodes : List Node → Bytes
compact_nodes [] = []
compact_nodes (node ∷ nodes) = elim (to_compact node) [
  | none ↦ compact_nodes nodes
  | some b ↦ b ++ compact_nodes nodes
]

unfoldable pub peer_values : List SocketAddr → Items
peer_values [] = no_items
peer_values (v4 octets port ∷ peers) = item (bytes (octets ++ put_u16 port)) (peer_values peers)
peer_values (v6 octets port ∷ peers) = peer_values peers

-- The dictionary `resp`; an error has none.
unfoldable pub put_response : DhtResponse → Fields
unfolding compact_nodes peer_values
put_response (pong id) = insert (codes "id") (bytes id) no_fields
put_response (found_nodes id nodes) =
    insert (codes "nodes") (bytes (compact_nodes nodes)) (insert (codes "id") (bytes id) no_fields)
put_response (got_peers id token peers nodes) =
    let first = insert (codes "token") (bytes token) (insert (codes "id") (bytes id) no_fields) in
    let second : Fields = elim peers [
      | none ↦ first
      | some ps ↦ insert (codes "values") (list (peer_values ps)) first
    ] in
    elim nodes [
      | none ↦ second
      | some ns ↦ insert (codes "nodes") (bytes (compact_nodes ns)) second
    ]
put_response (announced id) = insert (codes "id") (bytes id) no_fields
put_response (error code message) = no_fields

unfoldable pub response_fields : Option DhtResponse → Fields → Fields
unfolding put_response
response_fields none fields = fields
response_fields (some (error code message)) fields =
    insert (codes "e") (list (item (integer code) (item (bytes message) no_items)))
      (insert (codes "y") (bytes (codes "e")) fields)
response_fields (some other) fields =
    insert (codes "r") (dict (put_response other)) (insert (codes "y") (bytes (codes "r")) fields)

-- The value that `encode` builds.
unfoldable pub to_value : DhtMessage → Value
unfolding query_fields response_fields
to_value m = dict (
    response_fields m.response
      (query_fields m (insert (codes "t") (bytes m.transaction_id) no_fields)))

unfoldable pub encode : DhtMessage → Result Bytes
unfolding to_value
encode m = elim (Encode.encode (to_value m)) [ none ↦ err invalid_message | some b ↦ ok b ]
