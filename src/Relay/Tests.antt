-- ===== src/Relay/Tests.antt =====
-- Runs of the relay over two in-memory pipes, and its theorems at them.
use server_naive_rs.Common.{
  ℕ, ◌-◌, ltb, if◌then◌else◌, ◌≡◌, refl, arith, true, false, [], ◌∷◌, some,
}
use server_naive_rs.Stream.{AsyncRead, pending, ok, ready}
use server_naive_rs.Stream.Memory.{
  octets, Pipe, pipe_reader, pipe_writer, pipe_reader-IsReader, pipe_writer-IsWriter,
}
use server_naive_rs.Relay.{
  new, Copying, read_fresh, shut, wrote, write_loop, after_flush, flushed, written, copy_pass,
  copy_loop, poll_copy,
}
use server_naive_rs.Relay.Bidirectional.{
  Sleep, Relaying, idle_timeout, completed, settle, directed, up, down, set_up, set_down, poll_down,
  poll_relay, poll_all, begin, finish, copy_result, recorded, record_upload, record_download,
  copy_bidirectional_with_stats,
}
use server_naive_rs.Relay.Duplex.{IsDuplex, RelayOutcome, poll_relay-RelayOutcome}
use server_naive_rs.Relay.Idle.{Timed, poll_relay-Timed}
use server_naive_rs.Relay.Outcome.{CallerSees, new-Carried, copy_bidirectional_with_stats_lem}

pipe-IsDuplex : IsDuplex pipe_reader pipe_writer (λ t. octets t.0) (λ t. t.1)
pipe-IsDuplex = record {
  reader = pipe_reader-IsReader;
  writer = pipe_writer-IsWriter;
  reads = λ t room. refl;
  writes = λ t buf. refl;
  flushes = λ t. refl;
  shuts = λ t. refl;
}

-- A timer that has always elapsed.
abbrev alarm : Sleep (Unit {0})
alarm = record { reset = λ t. t; elapsed = λ t. (true, t) }

abbrev client : Pipe
client = (1 ∷ 2 ∷ 3 ∷ 4 ∷ 5 ∷ 6 ∷ 7 ∷ [], [])

abbrev remote : Pipe
remote = (8 ∷ 9 ∷ [], 0 ∷ [])

relays :
    copy_bidirectional_with_stats pipe_reader pipe_writer pipe_reader pipe_writer alarm
      (9 ∷ [])
      client
      remote
      tt
      6
      (some 42)
      false
    ≡ some (
      ready (
        ok (record {
          a_to_b = 7;
          b_to_a = 2;
          completed = true;
          termination = completed;
          client_eof = true;
          remote_eof = true;
        }),
        record_upload 42 7 ∷ record_download 42 2 ∷ [],
      ),
      (([], 8 ∷ 9 ∷ []), ([], 0 ∷ 1 ∷ 2 ∷ 3 ∷ 4 ∷ 5 ∷ 6 ∷ 7 ∷ [])),
    )
unfolding copy_bidirectional_with_stats begin finish poll_all poll_relay poll_down directed settle
    up down set_up set_down copy_result recorded poll_copy copy_loop copy_pass written write_loop
    flushed after_flush wrote read_fresh shut new
relays = refl

abbrev fresh : Copying Pipe Pipe
fresh = record { st = new 6 false; reader = client; writer = remote }

poll_relay-RelayOutcome_example :
    RelayOutcome pipe_reader pipe_writer
      (λ t. octets t.0)
      (λ t. t.1)
      pipe-IsDuplex
      pipe_reader
      pipe_writer
      (λ t. octets t.0)
      (λ t. t.1)
      pipe-IsDuplex
      alarm
      []
      (0 ∷ [])
      (octets client.0)
      (octets remote.0)
      (poll_relay pipe_reader pipe_writer pipe_reader pipe_writer alarm 9
        (begin 6 false client remote tt))
unfolding begin up down
poll_relay-RelayOutcome_example =
    poll_relay-RelayOutcome pipe_reader pipe_writer (λ t. octets t.0) (λ t. t.1) pipe-IsDuplex
      pipe_reader pipe_writer (λ t. octets t.0) (λ t. t.1) pipe-IsDuplex alarm [] (0 ∷ [])
      (octets client.0) (octets remote.0) 9 (begin 6 false client remote tt) (omega arith)
      (omega arith)
      (
        new-Carried pipe_reader (λ t. octets t.0) (λ t. t.1) client remote 6 false (omega arith),
        new-Carried pipe_reader (λ t. octets t.0) (λ t. t.1) remote client 6 false (omega arith),
      )

copy_bidirectional_with_stats_lem_example :
    CallerSees pipe_reader pipe_writer
      (λ t. octets t.0)
      (λ t. t.1)
      pipe-IsDuplex
      pipe_reader
      pipe_writer
      (λ t. octets t.0)
      (λ t. t.1)
      pipe-IsDuplex
      alarm
      client
      remote
      (some 42)
      (copy_bidirectional_with_stats pipe_reader pipe_writer pipe_reader pipe_writer alarm
        (9 ∷ 9 ∷ [])
        client
        remote
        tt
        6
        (some 42)
        false)
copy_bidirectional_with_stats_lem_example =
    copy_bidirectional_with_stats_lem pipe_reader pipe_writer (λ t. octets t.0) (λ t. t.1)
      pipe-IsDuplex pipe_reader pipe_writer (λ t. octets t.0) (λ t. t.1) pipe-IsDuplex alarm client
      remote (9 ∷ 9 ∷ []) tt 6 (some 42) false (omega arith)
      ((omega arith, omega arith), ((omega arith, omega arith), tt))

-- A timer that counts the polls down from three.
abbrev countdown : Sleep ℕ
countdown = record { reset = λ t. 3; elapsed = λ t. (if ltb t 1 then true else false, t - 1) }

-- A stream that is never ready to be read.
abbrev silent : AsyncRead Pipe
silent = record { poll_read = λ t room. (pending, t) }

silent-IsDuplex : IsDuplex silent pipe_writer (λ t. octets t.0) (λ t. t.1)
silent-IsDuplex = record {
  reader = record { reads = λ t room. refl; bytes = pipe_reader-IsReader.bytes };
  writer = pipe_writer-IsWriter;
  reads = λ t room. refl;
  writes = λ t buf. refl;
  flushes = λ t. refl;
  shuts = λ t. refl;
}

abbrev silence : Relaying Pipe Pipe ℕ
silence = begin 6 false client remote 0

times_out :
    poll_relay silent pipe_writer silent pipe_writer countdown 9 silence
    ≡ some (ready (ok false), record silence { termination = idle_timeout })
unfolding poll_relay begin new
times_out = refl

poll_relay-Timed_example :
    Timed countdown 0 0 0 (poll_relay silent pipe_writer silent pipe_writer countdown 9 silence)
unfolding begin up down new
poll_relay-Timed_example =
    poll_relay-Timed silent pipe_writer (λ t. octets t.0) (λ t. t.1) silent-IsDuplex silent
      pipe_writer (λ t. octets t.0) (λ t. t.1) silent-IsDuplex countdown [] (0 ∷ [])
      (octets client.0) (octets remote.0) 9 silence (omega arith) (omega arith)
      (
        new-Carried silent (λ t. octets t.0) (λ t. t.1) client remote 6 false (omega arith),
        new-Carried silent (λ t. octets t.0) (λ t. t.1) remote client 6 false (omega arith),
      )
