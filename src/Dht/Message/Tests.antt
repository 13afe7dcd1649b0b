-- ===== src/Dht/Message/Tests.antt =====
-- Runs of the messages on concrete values, and the theorem about them applied.
use rbitt.Prelude.{◌≡◌, refl, false, Bytes, codes, replicate, arith}
use rbitt.Prelude.Int.{negsuc}
use rbitt.Prelude.Lex.{lex_lt}
use rbitt.Bencode.Value.{insert}
use rbitt.Bencode.Encodable.{IsEncodable}
use rbitt.Dht.Message.{DhtQuery, announce_peer, make_query, make_announce, ok}
use rbitt.Dht.Message.Parse.{parse, to_u16}
use rbitt.Dht.Message.Encode.{
  encode, to_value, query_fields, response_fields, put_query, put_sender,
}
use rbitt.Dht.Message.RoundTrip.{name_of, IsQuery, parse-encode-make_query}

abbrev some_id : Bytes
some_id = replicate 20 1

abbrev announcement : DhtQuery
announcement = announce_peer (replicate 20 2) 6881 (codes "tok") false

announcement-make_announce :
    make_announce some_id (codes "aa") (replicate 20 2) 6881 (codes "tok")
    ≡ make_query (name_of announcement) announcement (codes "aa") some_id
unfolding make_announce name_of
announcement-make_announce = refl

announcement-IsQuery : IsQuery announcement
unfolding IsQuery
announcement-IsQuery = (refl, omega arith)

announcement-IsEncodable :
    IsEncodable 0 (to_value (make_query (name_of announcement) announcement (codes "aa") some_id))
unfolding IsEncodable lex_lt to_value make_query name_of insert query_fields response_fields
    put_query put_sender
announcement-IsEncodable = (
  omega arith,
  (
    refl,
    (omega arith, omega arith),
    (
      omega arith,
      (
        refl,
        (omega arith, omega arith),
        (omega arith, omega arith),
        (
          refl,
          (omega arith, omega arith),
          (omega arith, omega arith),
          (
            refl,
            (omega arith, omega arith),
            (omega arith, omega arith),
            (refl, (omega arith, omega arith), (omega arith, omega arith), tt),
          ),
        ),
      ),
    ),
    (
      refl,
      (omega arith, omega arith),
      (omega arith, omega arith),
      (
        refl,
        (omega arith, omega arith),
        (omega arith, omega arith),
        (refl, (omega arith, omega arith), (omega arith, omega arith), tt),
      ),
    ),
  ),
)

parse-encode-make_query_example :
    (out : Bytes) × (encode (make_query (name_of announcement) announcement (codes "aa") some_id)
      ≡ ok out)
    × (parse 5 out ≡ ok (make_query (name_of announcement) announcement (codes "aa") some_id))
parse-encode-make_query_example =
    parse-encode-make_query 5 (codes "aa") some_id announcement refl announcement-IsQuery
      announcement-IsEncodable

-- A port out of range wraps.
wrapped_port : to_u16 (negsuc 0) ≡ 65535
unfolding to_u16
wrapped_port = refl
