-- ===== src/Bridge/Tests.antt =====
-- Runs of the bridge, and its theorem at one.
use server_naive_rs.Common.{◌≡◌, refl, true, List, [], ◌∷◌, none, some}
use server_naive_rs.Bridge.{
  all_written, fails_behind, Event, body_bytes, body_end, pipe_bytes, pipe_end, chunk,
  end_of_stream, start, run_session_bridge,
}
use server_naive_rs.Bridge.Forwarding.{all_up, all_down}
use server_naive_rs.Bridge.Rounds.{ForwardedAfter, run_session_bridge-Forwarded}

abbrev crossing : List Event
crossing =
    body_bytes (1 ∷ 2 ∷ []) all_written
    ∷ pipe_bytes (7 ∷ []) true
    ∷ body_end
    ∷ pipe_bytes (8 ∷ 9 ∷ []) true
    ∷ pipe_end true
    ∷ []

crosses :
    run_session_bridge crossing start
    ≡ some (record {
      up_eof = true;
      down_eof = true;
      pipe_in = 1 ∷ 2 ∷ [];
      pipe_shut = true;
      response = chunk (7 ∷ []) ∷ chunk (8 ∷ 9 ∷ []) ∷ end_of_stream ∷ [];
    })
unfolding run_session_bridge start
crosses = refl

off : run_session_bridge (body_bytes (1 ∷ 2 ∷ []) (fails_behind 1) ∷ body_end ∷ []) start ≡ none
unfolding run_session_bridge start
off = refl

run_session_bridge-Forwarded_example :
    ForwardedAfter (all_up crossing) (all_down crossing) (run_session_bridge crossing start)
run_session_bridge-Forwarded_example = run_session_bridge-Forwarded crossing
