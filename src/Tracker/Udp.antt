-- ===== src/Tracker/Udp.antt =====
-- src-tauri/crates/oxidebt-tracker/src/udp.rs: the requests to a UDP tracker, the check of its
-- answers, and the retries. What the socket gives for each request that is sent is a list of
-- outcomes; the transaction number is an argument. Finding the address of the tracker is left out.
pub mod Answers
mod Tests
use rbitt.Prelude.{
  ℕ, zero, suc, ◌+◌, ◌*◌, ◌/◌, ◌%◌, ◌^◌, Bool, not, Option, none, some, List, [], ◌∷◌, ◌++◌, Bytes,
  ltb, leb, ◌==◌, if◌then◌else◌, length,
}
use rbitt.Peer.Wire.{put_u32, get_u32, put_u16}
use rbitt.Tracker.Response.{
  TrackerEvent, as_u32, from_compact_v4, AnnounceResponse, ScrapeStats, ScrapeResponse,
  TrackerError, io, tracker_failure, invalid_response, timed_out, invalid_transaction_id,
  invalid_action, Result, ok, err,
}

-- `UDP_ACTION_CONNECT` and the others
abbrev pub action_connect : ℕ
action_connect = 0

abbrev pub action_announce : ℕ
action_announce = 1

abbrev pub action_scrape : ℕ
action_scrape = 2

abbrev pub action_error : ℕ
action_error = 3

-- `put_u64`, and `put_i64` of a number that is not negative
abbrev pub put_u64 : ℕ → Bytes
put_u64 n = put_u32 (n / 2 ^ 32) ++ put_u32 (n % 2 ^ 32)

abbrev pub max_retries : ℕ
max_retries = 3

pub record AnnounceParams : Type 0 where
  pub info_hash : Bytes
  pub peer_id : Bytes
  pub downloaded : ℕ
  pub left : ℕ
  pub uploaded : ℕ
  pub event : TrackerEvent
  pub port : ℕ

-- The connection identifier is given by its 64 bits, and `-1` is written by its 32.
unfoldable pub announce_request : ℕ → ℕ → ℕ → AnnounceParams → Bytes
unfolding as_u32
announce_request connection_id transaction_id key params =
    put_u64 connection_id
    ++ (put_u32 action_announce
        ++ (put_u32 transaction_id
            ++ (params.info_hash
                ++ (params.peer_id
                    ++ (put_u64 params.downloaded
                        ++ (put_u64 params.left
                            ++ (put_u64 params.uploaded
                                ++ (put_u32 (as_u32 params.event)
                                    ++ (put_u32 0
                                        ++ (put_u32 key
                                            ++ (put_u32 0xffffffff ++ put_u16 params.port)))))))))))

unfoldable pub connect_request : ℕ → Bytes
connect_request transaction_id =
    put_u64 0x41727101980 ++ (put_u32 action_connect ++ put_u32 transaction_id)

unfoldable pub join_hashes : List Bytes → Bytes
join_hashes [] = []
join_hashes (hash ∷ hashes) = hash ++ join_hashes hashes

unfoldable pub scrape_request : ℕ → ℕ → List Bytes → Bytes
unfolding join_hashes
scrape_request connection_id transaction_id info_hashes =
    put_u64 connection_id
    ++ (put_u32 action_scrape ++ (put_u32 transaction_id ++ join_hashes info_hashes))

unfoldable pub parse_announce_response : Bytes → ℕ → Result AnnounceResponse
unfolding get_u32 from_compact_v4
parse_announce_response bytes expected_transaction_id =
    let action = get_u32 bytes in
    let transaction_id = get_u32 action.1 in
    let interval = get_u32 transaction_id.1 in
    let incomplete = get_u32 interval.1 in
    let complete = get_u32 incomplete.1 in
    if ltb (length bytes) 20
    then err invalid_response
    else if not (transaction_id.0 == expected_transaction_id)
    then err invalid_transaction_id
    else if action.0 == action_error
    then err (tracker_failure transaction_id.1)
    else if not (action.0 == action_announce)
    then err invalid_action
    else ok (record {
      interval = interval.0;
      min_interval = none;
      complete = some complete.0;
      incomplete = some incomplete.0;
      peers = from_compact_v4 complete.1;
      peers6 = [];
      warning_message = none;
      tracker_id = none;
    })

-- The loop over the hashes that were asked for.
unfoldable pub scrape_files : List Bytes → Bytes → List (Bytes × ScrapeStats)
unfolding get_u32
scrape_files [] cursor = []
scrape_files (hash ∷ hashes) cursor =
    let complete = get_u32 cursor in
    let downloaded = get_u32 complete.1 in
    let incomplete = get_u32 downloaded.1 in
    let rest = scrape_files hashes incomplete.1 in
    if ltb (length cursor) 12
    then []
    else (
      hash,
      record { complete = complete.0; incomplete = incomplete.0; downloaded = downloaded.0 },
    )
      ∷ rest

unfoldable pub parse_scrape_response : Bytes → ℕ → List Bytes → Result ScrapeResponse
unfolding get_u32 scrape_files
parse_scrape_response bytes expected_transaction_id info_hashes =
    let action = get_u32 bytes in
    let transaction_id = get_u32 action.1 in
    if ltb (length bytes) 8
    then err invalid_response
    else if not (transaction_id.0 == expected_transaction_id)
    then err invalid_transaction_id
    else if action.0 == action_error
    then err (tracker_failure transaction_id.1)
    else if not (action.0 == action_scrape)
    then err invalid_action
    else ok (record { files = scrape_files info_hashes transaction_id.1 })

-- What `timeout(.., socket.recv(..))` gives.
pub data Outcome : Type 0 where
  received : Bytes → Outcome
  failed : Outcome
  silent : Outcome

-- The loop of `announce`: `retries` requests may still be sent, and the socket answers them in turn.
unfoldable pub announce_loop : ℕ → List Outcome → ℕ → Result AnnounceResponse
unfolding parse_announce_response
announce_loop zero outcomes transaction_id = err timed_out
announce_loop (suc retries) [] transaction_id = err timed_out
announce_loop (suc retries) (received bytes ∷ outcomes) transaction_id =
    if leb 20 (length bytes)
    then parse_announce_response bytes transaction_id
    else err invalid_response
announce_loop (suc retries) (failed ∷ outcomes) transaction_id = err io
announce_loop (suc retries) (silent ∷ outcomes) transaction_id =
    announce_loop retries outcomes transaction_id

-- The loop of `connect`, which gives the connection identifier by its 64 bits.
unfoldable pub connect_loop : ℕ → List Outcome → ℕ → Result ℕ
unfolding get_u32
connect_loop zero outcomes transaction_id = err timed_out
connect_loop (suc retries) [] transaction_id = err timed_out
connect_loop (suc retries) (received bytes ∷ outcomes) transaction_id =
    let action = get_u32 bytes in
    let recv_transaction_id = get_u32 action.1 in
    let high = get_u32 recv_transaction_id.1 in
    let low = get_u32 high.1 in
    let again = connect_loop retries outcomes transaction_id in
    if ltb (length bytes) 16
    then err invalid_response
    else if action.0 == action_error
    then err (tracker_failure [])
    else if not (action.0 == action_connect)
    then err invalid_action
    else if not (recv_transaction_id.0 == transaction_id)
    then again
    else ok (high.0 * 2 ^ 32 + low.0)
connect_loop (suc retries) (failed ∷ outcomes) transaction_id = err io
connect_loop (suc retries) (silent ∷ outcomes) transaction_id =
    connect_loop retries outcomes transaction_id
