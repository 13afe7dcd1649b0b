-- ===== src/Dht/Node/Compact.antt =====
-- The compact form of a node, 26 bytes: what is written is read again, and what is read is written.
use rbitt.Prelude.{
  ℕ, ◌^◌, ◌<◌, ◌≡◌, refl, some, ◌++◌, Bytes, length, length-append, take, drop, take_prefix,
  drop_prefix, drop-drop, sym, ap, ◌∙◌, arith,
}
use rbitt.Net.{v4}
use rbitt.Peer.Wire.{put_u16, get_u16-put_u16}
use rbitt.Dht.Node.{IsId, Node, new, from_bytes, to_compact, from_compact}

-- Reading what a node with an IPv4 address writes gives the same identifier and address, seen now and never queried.
pub from_compact-to_compact :
    (node : Node) (octets : Bytes) (port now : ℕ)
    → IsId node.id
    → node.addr ≡ v4 octets port
    → length octets ≡ 4
    → port < 2 ^ 16
    → (bytes : Bytes) × (to_compact node ≡ some bytes)
      × (from_compact bytes now ≡ some (new node.id node.addr now))
unfolding to_compact from_compact from_bytes
from_compact-to_compact node octets port now valid e len small =
    let size : length (node.id ++ (octets ++ put_u16 port)) ≡ 26 = omega (
      arith,
      length-append node.id (octets ++ put_u16 port),
      length-append octets (put_u16 port),
      valid.1,
      len,
    ) in
    let first : take 20 (node.id ++ (octets ++ put_u16 port)) ≡ node.id =
      take_prefix 20 node.id _ valid.1 in
    let second : drop 20 (node.id ++ (octets ++ put_u16 port)) ≡ octets ++ put_u16 port =
      drop_prefix 20 node.id _ valid.1 in
    let ip : take 4 (octets ++ put_u16 port) ≡ octets = take_prefix 4 octets _ len in
    let end : drop 24 (node.id ++ (octets ++ put_u16 port)) ≡ put_u16 port =
      sym (drop-drop 4 20 (node.id ++ (octets ++ put_u16 port)))
      ∙ ap (drop 4) second
      ∙ drop_prefix 4 octets _ len in
    rw e (
      node.id ++ (octets ++ put_u16 port),
      refl,
      rw (size, first, valid.1, second, ip, end, get_u16-put_u16 port small) refl,
    )
