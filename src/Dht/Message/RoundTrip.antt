-- ===== src/Dht/Message/RoundTrip.antt =====
-- A query that is encoded is parsed again.
use rbitt.Prelude.{
  ℕ, ◌^◌, ◌<◌, ◌%◌, ◌≡◌, refl, true, false, Option, some, Bytes, codes, length, arith,
}
use rbitt.Bencode.Value.{Fields, bytes, no_fields, find, insert, as_bytes, as_integer, as_dict}
use rbitt.Bencode.Encodable.{IsEncodable}
use rbitt.Bencode.Canonical.{decode-encode}
use rbitt.Prelude.Lex.{lex_lt}
use rbitt.Dht.Node.{from_bytes}
use rbitt.Dht.Message.{
  DhtQuery, Result, required, ◌>>=◌, ping, find_node, get_peers, announce_peer, make_query, ok,
}
use rbitt.Dht.Message.Parse.{
  parse, parse_value, to_id, to_hash, to_u16, is_one, as_str, query_of, parse_announce, parse_query,
}
use rbitt.Dht.Message.Encode.{
  encode, to_value, query_fields, response_fields, put_query, put_sender,
}
use rbitt.Bencode.Text.{is_utf8, utf8_from, lead}
use rbitt.Prelude.Same.{same_bytes}

-- The name under which a query is sent.
unfoldable pub name_of : DhtQuery → Bytes
name_of ping = codes "ping"
name_of (find_node target) = codes "find_node"
name_of (get_peers info_hash) = codes "get_peers"
name_of (announce_peer info_hash port token implied_port) = codes "announce_peer"

-- What the types of the source hold to: identifiers and hashes have twenty bytes, a port sixteen bits.
unfoldable pub IsQuery : DhtQuery → Type 0
IsQuery ping = Unit
IsQuery (find_node target) = length target ≡ 20
IsQuery (get_peers info_hash) = length info_hash ≡ 20
IsQuery (announce_peer info_hash port token implied_port) =
    (length info_hash ≡ 20) × (port < 2 ^ 16)

mod_below : (n : ℕ) → n < 2 ^ 16 → n % 2 ^ 16 ≡ n
mod_below n small = omega arith

to_id-some : (id : Bytes) → length id ≡ 20 → to_id id ≡ some id
unfolding to_id from_bytes
to_id-some id len = rw (len, to_id, from_bytes) refl

to_hash-some : (hash : Bytes) → length hash ≡ 20 → to_hash hash ≡ some hash
unfolding to_hash
to_hash-some hash len = rw (len, to_hash) refl

abbrev args_of : DhtQuery → Bytes → Fields
args_of q id = put_query q (put_sender (some id))

query_of-put_query :
    (id : Bytes) (q : DhtQuery) → IsQuery q → query_of (name_of q) (args_of q id) ≡ ok q
unfolding name_of IsQuery find insert lex_lt same_bytes as_bytes as_integer is_one to_u16 query_of
    parse_announce put_query put_sender
query_of-put_query id ping valid = refl
query_of-put_query id (find_node target) valid = rw (to_id-some target valid, query_of) refl
query_of-put_query id (get_peers info_hash) valid = rw (to_hash-some info_hash valid, query_of) refl
query_of-put_query id (announce_peer info_hash port token true) valid =
    rw (to_hash-some info_hash valid.0, mod_below port valid.1, query_of, parse_announce) refl
query_of-put_query id (announce_peer info_hash port token false) valid =
    rw (to_hash-some info_hash valid.0, mod_below port valid.1, query_of, parse_announce) refl

-- The identifier of the sender stands among the arguments of every query.
id-put_query :
    (id : Bytes) (q : DhtQuery) → (find (codes "id") (args_of q id) >>= as_bytes) ≡ some id
unfolding find insert lex_lt as_bytes put_query put_sender
id-put_query id ping = refl
id-put_query id (find_node target) = refl
id-put_query id (get_peers info_hash) = refl
id-put_query id (announce_peer info_hash port token true) = refl
id-put_query id (announce_peer info_hash port token false) = refl

name_of-is_utf8 : (q : DhtQuery) → is_utf8 (name_of q) ≡ true
unfolding name_of is_utf8 utf8_from lead
name_of-is_utf8 ping = refl
name_of-is_utf8 (find_node target) = refl
name_of-is_utf8 (get_peers info_hash) = refl
name_of-is_utf8 (announce_peer info_hash port token implied_port) = refl

as_str-name_of : (q : DhtQuery) → as_str (bytes (name_of q)) ≡ some (name_of q)
unfolding as_str
as_str-name_of q = rw (name_of-is_utf8 q, as_str) refl

required-some :
    {A B : Type 0} (m : Option A) (a : A) (f : A → Result B) (r : Result B)
    → m ≡ some a
    → f a ≡ r
    → required m f ≡ r
required-some m a f r e h = rw e h

-- A query is read from the entries of its dictionary.
parse_query-entries :
    (t : Bytes) (entries : Fields) (name : Bytes) (args : Fields) (q : DhtQuery) (id : Bytes)
    → (find (codes "q") entries >>= as_str) ≡ some name
    → (find (codes "a") entries >>= as_dict) ≡ some args
    → query_of name args ≡ ok q
    → (find (codes "id") args >>= as_bytes) ≡ some id
    → to_id id ≡ some id
    → parse_query t entries ≡ ok (make_query name q t id)
unfolding parse_query make_query
parse_query-entries t entries name args q id named given query_known sender known =
    required-some _ name _ _ named
      (required-some _ args _ _ given (rw query_known (rw sender (rw known refl))))

abbrev entries_of : Bytes → Bytes → DhtQuery → Fields
entries_of t id q =
    query_fields (make_query (name_of q) q t id) (insert (codes "t") (bytes t) no_fields)

-- What is built of a query is read as that query.
parse_value-to_value :
    (now : ℕ) (t id : Bytes) (q : DhtQuery)
    → length id ≡ 20
    → IsQuery q
    → parse_value now (to_value (make_query (name_of q) q t id))
      ≡ ok (make_query (name_of q) q t id)
unfolding parse_value to_value make_query find insert lex_lt is_utf8 utf8_from lead same_bytes
    as_bytes as_dict as_str query_fields response_fields
parse_value-to_value now t id q len valid =
    parse_query-entries t (entries_of t id q) (name_of q) (args_of q id) q id (as_str-name_of q)
      refl (query_of-put_query id q valid) (id-put_query id q) (to_id-some id len)

-- A query is encoded, and what was written is parsed to the query, where its identifiers and hashes
-- have twenty bytes, its port sixteen bits, and its byte strings respect the decoder's limits.
pub parse-encode-make_query :
    (now : ℕ) (t id : Bytes) (q : DhtQuery)
    → length id ≡ 20
    → IsQuery q
    → IsEncodable 0 (to_value (make_query (name_of q) q t id))
    → (out : Bytes) × (encode (make_query (name_of q) q t id) ≡ ok out)
      × (parse now out ≡ ok (make_query (name_of q) q t id))
unfolding encode parse
parse-encode-make_query now t id q len valid limits =
    let written = decode-encode (to_value (make_query (name_of q) q t id)) limits in
    (
      written.0,
      rw (written.1, encode) refl,
      rw (written.2, parse) (parse_value-to_value now t id q len valid),
    )
