-- ===== src/Net/Pex/RoundTrip.antt =====
-- What a message encodes is decoded to the same peers.
use rbitt.Prelude.{
  ℕ, zero, suc, ◌+◌, ◌^◌, ◌≤◌, ◌<◌, ◌≡◌, refl, sym, ap, ◌∙◌, subst, Bool, true, false, not, List,
  [], ◌∷◌, ◌++◌, append_assoc, Bytes, leb, length, length-append, take, drop, take_prefix,
  drop_prefix, All, arith,
}
use mathlib.Core.Path.{ap₂}
use rbitt.Net.{SocketAddr, v4, v6}
use rbitt.Peer.Wire.{put_u16, get_u16, get_u16-put_u16}
use rbitt.Net.Pex.{
  PexFlags, from_byte, to_byte, PexPeer, PexMessage, put_v4, put_v6, put_addrs, put_peers, is_ipv4,
  put_flags, encode_added, encode_added_flags, encode_added6, encode_added6_flags, encode_dropped,
  encode_dropped6, next_flags, addrs_from, peers_from, decode_added, decode_added6, decode_dropped,
  decode_dropped6,
}

unchanged : (a b c d e : Bool) → PexFlags
unchanged a b c d e = record { encryption = a; seed = b; utp = c; holepunch = d; connectable = e }

five_bits : (a b c d e : Bool) → from_byte (to_byte (unchanged a b c d e)) ≡ unchanged a b c d e
unfolding from_byte to_byte unchanged
five_bits a b c d e = ground arith

pub from_byte-to_byte : (f : PexFlags) → from_byte (to_byte f) ≡ f
unfolding unchanged
from_byte-to_byte f = five_bits f.encryption f.seed f.utp f.holepunch f.connectable

-- An address of the version with four octets, or of that with sixteen.
unfoldable pub is_v4 : SocketAddr → Bool
is_v4 (v4 octets port) = true
is_v4 (v6 octets port) = false

unfoldable pub octets_of : SocketAddr → Bytes
octets_of (v4 octets port) = octets
octets_of (v6 octets port) = octets

unfoldable pub port_of : SocketAddr → ℕ
port_of (v4 octets port) = port
port_of (v6 octets port) = port

-- An address that `make` builds from so many octets, and that `put` writes as these and the port.
pub record IsAddr (make : Bytes → ℕ → SocketAddr) (put : SocketAddr → Bytes) (n : ℕ)
    (addr : SocketAddr) : Type 0 where
  pub built : make (octets_of addr) (port_of addr) ≡ addr
  pub written : put addr ≡ octets_of addr ++ put_u16 (port_of addr)
  pub octets : length (octets_of addr) ≡ n
  pub port : port_of addr < 2 ^ 16

module _ (make : Bytes → ℕ → SocketAddr) (put : SocketAddr → Bytes) (n : ℕ) where
  -- What is read at the front of the bytes that an address wrote.
  record Front (addr : SocketAddr) (rest bytes : Bytes) : Type 0 where
    front : make (take n bytes) (get_u16 (drop n bytes)) ≡ addr
    enough : leb (n + 2) (length bytes) ≡ true
    behind : drop (n + 2) bytes ≡ rest
    size : length bytes ≡ n + 2 + length rest

  Front-of :
      (addr : SocketAddr) (rest : Bytes)
      → IsAddr make put n addr
      → Front addr rest (put addr ++ rest)
  unfolding get_u16
  Front-of addr rest v =
      let o = octets_of addr in
      let w = put_u16 (port_of addr) in
      let whole : put addr ++ rest ≡ o ++ (w ++ rest) =
        ap (λ t. t ++ rest) v.written ∙ append_assoc o w rest in
      let both : length (o ++ w) ≡ n + 2 = omega (arith, length-append o w, v.octets) in
      let port : get_u16 (w ++ rest) ≡ port_of addr = get_u16-put_u16 (port_of addr) v.port in
      let size : length (o ++ (w ++ rest)) ≡ n + 2 + length rest =
        omega (arith, length-append o (w ++ rest), length-append w rest, v.octets) in
      subst (Front addr rest) (sym whole) (record {
        front =
            ap₂ make (take_prefix n o (w ++ rest) v.octets)
              (ap get_u16 (drop_prefix n o (w ++ rest) v.octets) ∙ port)
            ∙ v.built;
        enough = ground (arith, size);
        behind =
            subst (λ t. drop (n + 2) t ≡ rest) (append_assoc o w rest)
              (drop_prefix (n + 2) (o ++ w) rest both);
        size = size;
      })

  addrs_from-put_addrs :
      (addrs : List SocketAddr) (fuel : ℕ)
      → All (IsAddr make put n) addrs
      → length (put_addrs put addrs) ≤ fuel
      → addrs_from make n fuel (put_addrs put addrs) ≡ addrs
  unfolding addrs_from put_addrs
  addrs_from-put_addrs [] zero all h = refl
  addrs_from-put_addrs [] (suc fuel) all h = ground arith
  addrs_from-put_addrs (addr ∷ addrs) zero all h =
      let f = Front-of addr (put_addrs put addrs) all.0 in absurd (omega (arith, f.size, h))
  addrs_from-put_addrs (addr ∷ addrs) (suc fuel) all h =
      let f = Front-of addr (put_addrs put addrs) all.0 in
      rw (f.enough, f.front, f.behind)
        (ap (λ t. addr ∷ t) (addrs_from-put_addrs addrs fuel all.1 (omega (arith, f.size, h))))

  peers_from-put_peers :
      (wanted : SocketAddr → Bool) (peers : List PexPeer) (fuel : ℕ)
      → All (λ p. IsAddr make put n p.addr × (wanted p.addr ≡ true)) peers
      → length (put_peers put peers) ≤ fuel
      → peers_from make n fuel (put_peers put peers) (put_flags wanted peers) ≡ peers
  unfolding peers_from put_peers put_flags next_flags
  peers_from-put_peers wanted [] zero all h = refl
  peers_from-put_peers wanted [] (suc fuel) all h = ground arith
  peers_from-put_peers wanted (peer ∷ peers) zero all h =
      let f = Front-of peer.addr (put_peers put peers) all.0.0 in absurd (omega (arith, f.size, h))
  peers_from-put_peers wanted (peer ∷ peers) (suc fuel) all h =
      let f = Front-of peer.addr (put_peers put peers) all.0.0 in
      rw (all.0.1, f.enough, f.front, f.behind, from_byte-to_byte peer.flags)
        (ap (λ t. peer ∷ t)
          (peers_from-put_peers wanted peers fuel all.1 (omega (arith, f.size, h))))

abbrev pub Is4 : SocketAddr → Type 0
Is4 addr = (is_v4 addr ≡ true) × (length (octets_of addr) ≡ 4) × (port_of addr < 2 ^ 16)

abbrev pub Is6 : SocketAddr → Type 0
Is6 addr = (is_v4 addr ≡ false) × (length (octets_of addr) ≡ 16) × (port_of addr < 2 ^ 16)

Is4-IsAddr : (addr : SocketAddr) → Is4 addr → IsAddr v4 put_v4 4 addr × (is_ipv4 addr ≡ true)
unfolding is_v4 octets_of port_of put_v4 is_ipv4
Is4-IsAddr (v4 octets port) h =
    (record { built = refl; written = refl; octets = h.1; port = h.2 }, refl)
Is4-IsAddr (v6 octets port) h = let no : false ≡ true = h.0 in cc

Is6-IsAddr : (addr : SocketAddr) → Is6 addr → IsAddr v6 put_v6 16 addr × (not (is_ipv4 addr) ≡ true)
unfolding is_v4 octets_of port_of put_v6 is_ipv4
Is6-IsAddr (v4 octets port) h = let no : true ≡ false = h.0 in cc
Is6-IsAddr (v6 octets port) h =
    (record { built = refl; written = refl; octets = h.1; port = h.2 }, refl)

All-map :
    {A : Type 0} (P Q : A → Type 0) (xs : List A) → ((x : A) → P x → Q x) → All P xs → All Q xs
All-map P Q [] f all = tt
All-map P Q (x ∷ xs) f all = (f x all.0, All-map P Q xs f all.1)

-- Every address is in the list of its version, with the octets of that version and a port of 16 bits.
pub record IsMessage (m : PexMessage) : Type 0 where
  pub added : All (λ p. Is4 p.addr) m.added
  pub added6 : All (λ p. Is6 p.addr) m.added6
  pub dropped : All Is4 m.dropped
  pub dropped6 : All Is6 m.dropped6

-- The four lists of a message, its peers with their flags, are decoded from what it encodes.
pub decode_added-encode_added :
    (m : PexMessage)
    → IsMessage m
    → (decode_added (encode_added m) (encode_added_flags m) ≡ m.added)
      × (decode_added6 (encode_added6 m) (encode_added6_flags m) ≡ m.added6)
      × (decode_dropped (encode_dropped m) ≡ m.dropped)
      × (decode_dropped6 (encode_dropped6 m) ≡ m.dropped6)
unfolding decode_added decode_added6 decode_dropped decode_dropped6 encode_added encode_added_flags
    encode_added6 encode_added6_flags encode_dropped encode_dropped6
decode_added-encode_added m v = (
  peers_from-put_peers v4 put_v4 4 is_ipv4 m.added (length (put_peers put_v4 m.added))
      (All-map (λ p. Is4 p.addr) (λ p. IsAddr v4 put_v4 4 p.addr × (is_ipv4 p.addr ≡ true)) m.added
        (λ p. Is4-IsAddr p.addr) v.added)
      (omega arith),
  peers_from-put_peers v6 put_v6 16 (λ addr. not (is_ipv4 addr)) m.added6
      (length (put_peers put_v6 m.added6))
      (All-map (λ p. Is6 p.addr) (λ p. IsAddr v6 put_v6 16 p.addr × (not (is_ipv4 p.addr) ≡ true))
        m.added6 (λ p. Is6-IsAddr p.addr) v.added6)
      (omega arith),
  addrs_from-put_addrs v4 put_v4 4 m.dropped (length (put_addrs put_v4 m.dropped))
      (All-map Is4 (IsAddr v4 put_v4 4) m.dropped (λ a h. (Is4-IsAddr a h).0) v.dropped)
      (omega arith),
  addrs_from-put_addrs v6 put_v6 16 m.dropped6 (length (put_addrs put_v6 m.dropped6))
      (All-map Is6 (IsAddr v6 put_v6 16) m.dropped6 (λ a h. (Is6-IsAddr a h).0) v.dropped6)
      (omega arith),
)
