-- ===== src/Tracker/Udp/Tests.antt =====
-- Runs of the UDP tracker on concrete answers, and its theorem applied to them.
use rbitt.Prelude.{
  All, IsByte, ◌↔◌, arith, ◌≡◌, refl, List, [], ◌∷◌, ◌++◌, Bytes, length, replicate,
}
use rbitt.Peer.Wire.{put_u32}
use rbitt.Tracker.Response.{ok, err, started, timed_out}
use rbitt.Tracker.Udp.{
  AnnounceParams, announce_request, Outcome, received, silent, max_retries, announce_loop,
}
use rbitt.Tracker.Udp.Answers.{AreBytes, Answered, announced, announce_loop_iff}

abbrev answer : Bytes
answer =
    put_u32 1
    ++ (put_u32 77
        ++ (put_u32 1800 ++ (put_u32 3 ++ (put_u32 5 ++ (10 ∷ 0 ∷ 0 ∷ 1 ∷ 26 ∷ 225 ∷ [])))))

answer-IsByte : All IsByte answer
answer-IsByte = (
  omega arith,
  (
    omega arith,
    (
      omega arith,
      (
        omega arith,
        (
          omega arith,
          (
            omega arith,
            (
              omega arith,
              (
                omega arith,
                (
                  omega arith,
                  (
                    omega arith,
                    (
                      omega arith,
                      (
                        omega arith,
                        (
                          omega arith,
                          (
                            omega arith,
                            (
                              omega arith,
                              (
                                omega arith,
                                (
                                  omega arith,
                                  (
                                    omega arith,
                                    (
                                      omega arith,
                                      (
                                        omega arith,
                                        (
                                          omega arith,
                                          (
                                            omega arith,
                                            (
                                              omega arith,
                                              (omega arith, (omega arith, (omega arith, tt))),
                                            ),
                                          ),
                                        ),
                                      ),
                                    ),
                                  ),
                                ),
                              ),
                            ),
                          ),
                        ),
                      ),
                    ),
                  ),
                ),
              ),
            ),
          ),
        ),
      ),
    ),
  ),
)

abbrev late : List Outcome
late = silent ∷ silent ∷ received answer ∷ []

late-AreBytes : All AreBytes late
late-AreBytes = (tt, (tt, (answer-IsByte, tt)))

late_read :
    announce_loop max_retries late 77 ≡ ok (announced 1800 3 5 (10 ∷ 0 ∷ 0 ∷ 1 ∷ 26 ∷ 225 ∷ []))
unfolding announce_loop rbitt.Tracker.Udp.parse_announce_response rbitt.Peer.Wire.get_u32
late_read = refl

announce_loop_iff_example :
    (announce_loop max_retries late 77 ≡ ok (announced 1800 3 5 (10 ∷ 0 ∷ 0 ∷ 1 ∷ 26 ∷ 225 ∷ [])))
    ↔ Answered max_retries late 77 (announced 1800 3 5 (10 ∷ 0 ∷ 0 ∷ 1 ∷ 26 ∷ 225 ∷ []))
announce_loop_iff_example =
    announce_loop_iff max_retries late 77 (announced 1800 3 5 (10 ∷ 0 ∷ 0 ∷ 1 ∷ 26 ∷ 225 ∷ []))
      (omega arith) late-AreBytes

too_late : announce_loop max_retries (silent ∷ late) 77 ≡ err timed_out
unfolding announce_loop
too_late = refl

abbrev params : AnnounceParams
params = record {
  info_hash = replicate 20 1;
  peer_id = replicate 20 2;
  downloaded = 0;
  left = 5;
  uploaded = 0;
  event = started;
  port = 6881;
}

request_size : length (announce_request 9 77 4 params) ≡ 98
unfolding announce_request
request_size = refl
