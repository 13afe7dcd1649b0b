-- ===== src/Peer/Fast.antt =====
-- src-tauri/crates/oxidebt-peer/src/fast.rs: the pieces that a choked peer may still ask for. The
-- hash function is a parameter, `sha1`. The loop over hashes is bounded in the source itself.
pub mod Bounds
mod Tests
use rbitt.Prelude.{
  ℕ, zero, suc, ◌+◌, ◌*◌, ◌%◌, ◌^◌, min, Bool, true, false, List, [], ◌∷◌, ◌++◌, Bytes, leb, ◌==◌,
  if◌then◌else◌, length, take, contains,
}
use rbitt.Prelude.Maps.{set_insert}

abbrev pub default_allowed_fast_count : ℕ
default_allowed_fast_count = 10

-- An address, as its octets.
pub data IpAddr : Type 0 where
  v4 : Bytes → IpAddr
  v6 : Bytes → IpAddr

unfoldable pub masked : IpAddr → Bytes
masked (v4 octets) = take 3 octets ++ (0 ∷ [])
masked (v6 octets) = take 8 octets

-- The loop over `x.chunks_exact(4)`. A piece count whose lowest 32 bits are 0 panics in the source.
unfoldable pub add_chunks : (target_count piece_count : ℕ) → Bytes → List ℕ → List ℕ
add_chunks target_count piece_count (a ∷ b ∷ c ∷ d ∷ rest) allowed_set =
    let index = (a * 2 ^ 24 + b * 2 ^ 16 + c * 2 ^ 8 + d) % (piece_count % 2 ^ 32) in
    let more = add_chunks target_count piece_count rest (set_insert index allowed_set) in
    if leb target_count (length allowed_set) then allowed_set else more
add_chunks target_count piece_count _ allowed_set = allowed_set

-- The outer loop, with the iterations that are left.
unfoldable pub add_hashes :
    (Bytes → Bytes) → ℕ → (target_count piece_count : ℕ) → Bytes → List ℕ → List ℕ
add_hashes sha1 zero target_count piece_count x allowed_set = allowed_set
add_hashes sha1 (suc iterations) target_count piece_count x allowed_set =
    let hash = sha1 x in
    let more =
      add_hashes sha1 iterations target_count piece_count hash
        (add_chunks target_count piece_count hash allowed_set) in
    if leb target_count (length allowed_set) then allowed_set else more

unfoldable pub generate_allowed_fast_set :
    (Bytes → Bytes) → IpAddr → Bytes → (piece_count count : ℕ) → List ℕ
unfolding masked
generate_allowed_fast_set sha1 peer_ip info_hash piece_count count =
    let target_count = min count piece_count in
    if piece_count == 0
    then []
    else add_hashes sha1 (target_count * 10) target_count piece_count (masked peer_ip ++ info_hash)
        []

pub record FastExtensionState : Type 0 where
  pub peer_supports_fast : Bool
  pub allowed_fast_set_outgoing : List ℕ
  pub allowed_fast_set_incoming : List ℕ
  pub suggested_pieces : List ℕ

unfoldable pub new : FastExtensionState
new = record {
  peer_supports_fast = false;
  allowed_fast_set_outgoing = [];
  allowed_fast_set_incoming = [];
  suggested_pieces = [];
}

unfoldable pub init_for_peer :
    (Bytes → Bytes) → FastExtensionState → IpAddr → Bytes → ℕ → FastExtensionState
init_for_peer sha1 s peer_ip info_hash piece_count = record s {
  peer_supports_fast = true;
  allowed_fast_set_outgoing =
      generate_allowed_fast_set sha1 peer_ip info_hash piece_count default_allowed_fast_count;
}

unfoldable pub add_incoming_allowed_fast : FastExtensionState → ℕ → FastExtensionState
add_incoming_allowed_fast s piece_index = record s {
  allowed_fast_set_incoming = set_insert piece_index s.allowed_fast_set_incoming;
}

unfoldable pub add_suggestion : FastExtensionState → ℕ → FastExtensionState
add_suggestion s piece_index =
    if contains piece_index s.suggested_pieces
    then s
    else record s { suggested_pieces = s.suggested_pieces ++ (piece_index ∷ []) }

unfoldable pub can_request_while_choked : FastExtensionState → ℕ → Bool
can_request_while_choked s piece_index = contains piece_index s.allowed_fast_set_incoming

unfoldable pub clear_suggestions : FastExtensionState → FastExtensionState
clear_suggestions s = record s { suggested_pieces = [] }
