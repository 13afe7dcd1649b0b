-- ===== src/Tracker/Response.antt =====
-- src-tauri/crates/oxidebt-tracker/src/response.rs and error.rs: what a tracker answers.
use rbitt.Prelude.{
  ℕ, zero, suc, Option, none, List, [], ◌∷◌, ◌++◌, Bytes, leb, if◌then◌else◌, length, take, drop,
}
use rbitt.Net.{SocketAddr, v4, v6}
use rbitt.Peer.Wire.{get_u16}

pub data TrackerEvent : Type 0 where
  no_event : TrackerEvent
  started : TrackerEvent
  stopped : TrackerEvent
  completed : TrackerEvent

unfoldable pub as_u32 : TrackerEvent → ℕ
as_u32 no_event = 0
as_u32 completed = 1
as_u32 started = 2
as_u32 stopped = 3

pub record Peer : Type 0 where
  pub addr : SocketAddr
  pub peer_id : Option Bytes

-- `chunks_exact`: the chunks of `n` bytes, without what is left over. The fuel is the length.
unfoldable pub chunks_exact : ℕ → ℕ → Bytes → List Bytes
chunks_exact zero n bytes = []
chunks_exact (suc fuel) n bytes =
    let rest = chunks_exact fuel n (drop n bytes) in
    if leb n (length bytes) then take n bytes ∷ rest else []

unfoldable pub peers_of : (Bytes → ℕ → SocketAddr) → ℕ → List Bytes → List Peer
peers_of make octets [] = []
peers_of make octets (chunk ∷ chunks) =
    record { addr = make (take octets chunk) (get_u16 (drop octets chunk)); peer_id = none }
    ∷ peers_of make octets chunks

unfoldable pub from_compact_v4 : Bytes → List Peer
unfolding chunks_exact peers_of
from_compact_v4 bytes = peers_of v4 4 (chunks_exact (length bytes) 6 bytes)

unfoldable pub from_compact_v6 : Bytes → List Peer
unfolding chunks_exact peers_of
from_compact_v6 bytes = peers_of v6 16 (chunks_exact (length bytes) 18 bytes)

pub record AnnounceResponse : Type 0 where
  pub interval : ℕ
  pub min_interval : Option ℕ
  pub complete : Option ℕ
  pub incomplete : Option ℕ
  pub peers : List Peer
  pub peers6 : List Peer
  pub warning_message : Option Bytes
  pub tracker_id : Option Bytes

unfoldable pub all_peers : AnnounceResponse → List Peer
all_peers r = r.peers ++ r.peers6

pub record ScrapeStats : Type 0 where
  pub complete : ℕ
  pub incomplete : ℕ
  pub downloaded : ℕ

pub record ScrapeResponse : Type 0 where
  pub files : List (Bytes × ScrapeStats)

-- `TrackerError`, of which the UDP tracker gives these; the failure is the tracker's own text.
pub data TrackerError : Type 0 where
  io : TrackerError
  tracker_failure : Bytes → TrackerError
  invalid_response : TrackerError
  timed_out : TrackerError
  invalid_transaction_id : TrackerError
  invalid_action : TrackerError

pub data Result (A : Type 0) : Type 0 where
  ok : A → Result A
  err : TrackerError → Result A
