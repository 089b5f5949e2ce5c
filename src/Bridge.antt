-- ===== src/Bridge.antt =====
-- transport/pingora_session.rs: the bridge between an HTTP/2 session and a duplex pipe. The loop is
-- driven by what its `select!` yields, one event for each round.
pub mod Forwarding
pub mod Rounds
mod Tests
use server_naive_rs.Common.{
  ℕ, Bool, true, false, ◌&&◌, List, [], ◌∷◌, ◌++◌, take, Option, none, some, if◌then◌else◌,
}

-- A write of the whole buffer, or a failure behind so many bytes.
pub data WriteAll : Type 0 where
  all_written : WriteAll
  fails_behind : ℕ → WriteAll

-- What the client's body brings with the write of it into the pipe, and what the pipe brings with
-- the answer (whether it succeeds) of the write to the client.
pub data Event : Type 0 where
  body_bytes : List ℕ → WriteAll → Event
  body_end body_error : Event
  pipe_bytes : List ℕ → Bool → Event
  pipe_end pipe_error : Bool → Event

-- What the session writes as the response's body.
pub data ResponseFrame : Type 0 where
  chunk : List ℕ → ResponseFrame
  end_of_stream : ResponseFrame

-- `pipe_in` has been written into the pipe, and `pipe_shut` that it was shut down; `response` are the
-- frames that were written to the client.
pub record Bridge : Type 0 where
  pub up_eof : Bool
  pub down_eof : Bool
  pub pipe_in : List ℕ
  pub pipe_shut : Bool
  pub response : List ResponseFrame

unfoldable pub start : Bridge
start = record { up_eof = false; down_eof = false; pipe_in = []; pipe_shut = false; response = [] }

unfoldable pub upload : Bridge → List ℕ → WriteAll → Bridge
upload b bytes all_written = record b { pipe_in = b.pipe_in ++ bytes }
upload b bytes (fails_behind n) = record b { pipe_in = b.pipe_in ++ take n bytes; up_eof = true }

unfoldable pub upload_ended : Bridge → Bridge
upload_ended b = record b { pipe_shut = true; up_eof = true }

-- A chunk that the session refuses ends the download.
unfoldable pub download : Bridge → List ℕ → Bool → Bridge
download b bytes true = record b { response = b.response ++ (chunk bytes ∷ []) }
download b bytes false = record b { down_eof = true }

unfoldable pub download_ended : Bridge → Bool → Bridge
download_ended b true = record b { response = b.response ++ (end_of_stream ∷ []); down_eof = true }
download_ended b false = record b { down_eof = true }

abbrev pub unless : Bool → Bridge → Option Bridge
unless true b = none
unless false b = some b

-- A round of the loop; `none` where the branch of the event is off. A read of no bytes is the end.
unfoldable pub round : Bridge → Event → Option Bridge
unfolding upload upload_ended download download_ended
round b (body_bytes bytes w) = unless b.up_eof (upload b bytes w)
round b body_end = unless b.up_eof (upload_ended b)
round b body_error = unless b.up_eof (upload_ended b)
round b (pipe_bytes [] accepted) = unless b.down_eof (download_ended b accepted)
round b (pipe_bytes (x ∷ bytes) accepted) = unless b.down_eof (download b (x ∷ bytes) accepted)
round b (pipe_end accepted) = unless b.down_eof (download_ended b accepted)
round b (pipe_error accepted) = unless b.down_eof (download_ended b accepted)

unfoldable pub run_session_bridge : List Event → Bridge → Option Bridge
unfolding round
run_session_bridge [] b = some b
run_session_bridge (e ∷ events) b = elim (round b e) [
  | none ↦ none
  | some b' ↦ run_session_bridge events b'
]
