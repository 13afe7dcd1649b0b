-- ===== src/Peer/Handshake/RoundTrip.antt =====
-- src-tauri/crates/oxidebt-peer/src/message.rs, `Handshake`: the parser and the encoder together.
use rbitt.Prelude.{
  ℕ, ◌+◌, ◌≡◌, refl, sym, ap, ◌∙◌, true, [], ◌∷◌, ◌++◌, Bytes, length, take, drop, length-append,
  length-take, length-drop, arith, append-nil, ◌↔◌, drop-drop, take-drop, take_prefix, drop_prefix,
  eq_nil-of-length, subst,
}
use rbitt.Prelude.Same.{same_bytes, eq-of-same_bytes}
use rbitt.Peer.Error.{ok}
use rbitt.Peer.Handshake.{
  Handshake, protocol_string, new, parse, encode, supports_extensions, supports_dht, supports_fast,
}

-- The sizes of the arrays.
pub record IsSized (h : Handshake) : Type 0 where
  pub reserved : length h.reserved ≡ 8
  pub info_hash : length h.info_hash ≡ 20
  pub peer_id : length h.peer_id ≡ 20

-- The next `n` bytes behind the first `k`.
cut : (n k : ℕ) (bs : Bytes) → take n (drop k bs) ++ drop (n + k) bs ≡ drop k bs
cut n k bs =
    ap (λ rest. take n (drop k bs) ++ rest) (sym (drop-drop n k bs)) ∙ take-drop n (drop k bs)

-- The four fields behind the first byte.
fields-slice :
    (bs : Bytes)
    → length bs ≡ 67
    → take 19 bs ++ (take 8 (drop 19 bs) ++ (take 20 (drop 27 bs) ++ take 20 (drop 47 bs))) ≡ bs
fields-slice bs h =
    let nothing : drop 67 bs ≡ [] = eq_nil-of-length _ (omega (arith, length-drop 67 bs)) in
    ap (λ r. take 19 bs ++ r)
      (ap (λ r. take 8 (drop 19 bs) ++ r)
          (ap (λ r. take 20 (drop 27 bs) ++ r)
              (sym (append-nil (take 20 (drop 47 bs)))
                ∙ ap (λ r. take 20 (drop 47 bs) ++ r) (sym nothing)
                ∙ cut 20 47 bs)
            ∙ cut 20 27 bs)
        ∙ cut 8 19 bs)
    ∙ cut 19 0 bs

-- What the parser cuts out behind the first byte.
abbrev read : Bytes → Handshake
read bs = record {
  reserved = take 8 (drop 19 bs);
  info_hash = take 20 (drop 27 bs);
  peer_id = take 20 (drop 47 bs);
}

read-IsSized : (bs : Bytes) → length bs ≡ 67 → IsSized (read bs)
read-IsSized bs h = record {
  reserved = omega (arith, length-take 8 (drop 19 bs), length-drop 19 bs);
  info_hash = omega (arith, length-take 20 (drop 27 bs), length-drop 27 bs);
  peer_id = omega (arith, length-take 20 (drop 47 bs), length-drop 47 bs);
}

accepted : (input : Bytes) (h : Handshake) → parse input ≡ ok h → (input ≡ encode h) × IsSized h
unfolding parse encode
accepted [] h e = absurd (ground arith)
accepted (b ∷ bs) h e =
    let long : length bs ≡ 67 = ground arith in
    let first : b ≡ 19 = ground arith in
    let name : take 19 bs ≡ protocol_string = eq-of-same_bytes _ _ (ground arith) in
    let same : read bs ≡ h = ground arith in
    let rest = take 8 (drop 19 bs) ++ (take 20 (drop 27 bs) ++ take 20 (drop 47 bs)) in
    subst (λ h. (b ∷ bs ≡ encode h) × IsSized h) same
      (
        rw first (ap (λ t. 19 ∷ t) (sym (fields-slice bs long) ∙ ap (λ n. n ++ rest) name)),
        read-IsSized bs long,
      )

read-fields :
    (h : Handshake)
    → IsSized h
    → read (protocol_string ++ (h.reserved ++ (h.info_hash ++ h.peer_id))) ≡ h
read-fields h s =
    let rest = h.info_hash ++ h.peer_id in
    let all = h.reserved ++ rest in
    let behind : drop 8 all ≡ rest = drop_prefix 8 h.reserved rest s.reserved in
    let last : drop 28 all ≡ h.peer_id =
      sym (drop-drop 20 8 all)
      ∙ ap (λ bs. drop 20 bs) behind
      ∙ drop_prefix 20 h.info_hash h.peer_id s.info_hash in
    let whole : take 20 h.peer_id ≡ h.peer_id =
      ap (λ bs. take 20 bs) (sym (append-nil h.peer_id)) ∙ take_prefix 20 h.peer_id [] s.peer_id in
    rw
      (
        take_prefix 8 h.reserved rest s.reserved,
        behind,
        last,
        take_prefix 20 h.info_hash h.peer_id s.info_hash,
        whole,
      )
      refl

parse-encode_sized : (h : Handshake) → IsSized h → parse (encode h) ≡ ok h
unfolding parse encode same_bytes
parse-encode_sized h s =
    let tail : length (h.reserved ++ (h.info_hash ++ h.peer_id)) ≡ 48 = omega (
      arith,
      length-append h.reserved (h.info_hash ++ h.peer_id),
      length-append h.info_hash h.peer_id,
      s.reserved,
      s.info_hash,
      s.peer_id,
    ) in
    rw tail (ap ok (read-fields h s))

-- The parser accepts the encodings of handshakes, with the sizes of the arrays, and nothing else.
pub parse_iff :
    (input : Bytes) (h : Handshake) → (parse input ≡ ok h) ↔ ((input ≡ encode h) × IsSized h)
parse_iff input h =
    (accepted input h, λ (e, s). subst (λ bs. parse bs ≡ ok h) (sym e) (parse-encode_sized h s))

new-IsSized :
    (info_hash peer_id : Bytes)
    → length info_hash ≡ 20
    → length peer_id ≡ 20
    → IsSized (new info_hash peer_id)
unfolding new
new-IsSized info_hash peer_id i p = record { reserved = refl; info_hash = i; peer_id = p }

-- A new handshake is parsed by the other side to itself, and says that extensions, the DHT and the
-- fast extension are supported.
pub parse-encode-new :
    (info_hash peer_id : Bytes)
    → length info_hash ≡ 20
    → length peer_id ≡ 20
    → (parse (encode (new info_hash peer_id)) ≡ ok (new info_hash peer_id))
      × (supports_extensions (new info_hash peer_id) ≡ true)
      × (supports_dht (new info_hash peer_id) ≡ true)
      × (supports_fast (new info_hash peer_id) ≡ true)
unfolding supports_extensions supports_dht supports_fast new
parse-encode-new info_hash peer_id i p = (
  parse-encode_sized (new info_hash peer_id) (new-IsSized info_hash peer_id i p),
  refl,
  refl,
  refl,
)
