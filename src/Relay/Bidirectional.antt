-- ===== src/Relay/Bidirectional.antt =====
-- core/relay.rs: the two directions of the relay over the two streams, the idle timer and the
-- figures that are reported. The timer below is a parameter, as the streams are.
use server_naive_rs.Common.{
  ℕ, Bool, true, false, ◌&&◌, ◌||◌, ltb, List, [], ◌∷◌, ◌++◌, Option, none, some, if◌then◌else◌,
}
use server_naive_rs.Stream.{AsyncRead, AsyncWrite, IoResult, ok, err, Poll, pending, ready}
use server_naive_rs.Relay.{DirectionalBuffer, new, Copying, poll_copy}

pub data RelayTermination : Type 0 where
  completed idle_timeout error : RelayTermination

-- tokio's Sleep, reset to a full idle period or asked whether the period has passed.
pub record Sleep (S : Type 0) : Type 0 where
  pub reset : S → S
  pub elapsed : S → Bool × S

pub record Relaying (A B S : Type 0) : Type 0 where
  pub a_to_b : DirectionalBuffer
  pub b_to_a : DirectionalBuffer
  pub a : A
  pub b : B
  pub idle_sleep : S
  pub termination : RelayTermination

unfoldable pub up : {A B S : Type 0} → Relaying A B S → Copying A B
up s = record { st = s.a_to_b; reader = s.a; writer = s.b }

unfoldable pub down : {A B S : Type 0} → Relaying A B S → Copying B A
down s = record { st = s.b_to_a; reader = s.b; writer = s.a }

unfoldable pub set_up : {A B S : Type 0} → Relaying A B S → Copying A B → Relaying A B S
set_up s c = record s { a_to_b = c.st; a = c.reader; b = c.writer }

unfoldable pub set_down : {A B S : Type 0} → Relaying A B S → Copying B A → Relaying A B S
set_down s c = record s { b_to_a = c.st; b = c.reader; a = c.writer }

abbrev pub Polled : (A B S : Type 0) → Type 0
Polled A B S = Option (Poll (IoResult Bool) × Relaying A B S)

-- The end of a poll: the timer is reset on progress, and asked unless both directions are done.
unfoldable pub settle :
    {A B S : Type 0} → Sleep S → ℕ → ℕ → Relaying A B S → Poll (IoResult Bool) × Relaying A B S
settle sleep up_before down_before s =
    let idle =
      if ltb up_before s.a_to_b.amt || ltb down_before s.b_to_a.amt
      then sleep.reset s.idle_sleep
      else s.idle_sleep in
    let asked = sleep.elapsed idle in
    if s.a_to_b.shutdown_done && s.b_to_a.shutdown_done
    then (ready (ok true), record s { idle_sleep = idle; termination = completed })
    else (if asked.0
        then (ready (ok false), record s { idle_sleep = asked.1; termination = idle_timeout })
        else (pending, record s { idle_sleep = asked.1 }))

-- Behind the poll of a direction: an error ends the relay. `next` is the rest of the poll.
unfoldable pub directed :
    {A B S C D : Type 0}
    → (Copying C D → Relaying A B S)
    → (Relaying A B S → Polled A B S)
    → Option (Poll (IoResult (Unit {0})) × Copying C D)
    → Polled A B S
directed set next none = none
directed set next (some (pending, c)) = next (set c)
directed set next (some (ready (ok u), c)) = next (set c)
directed set next (some (ready (err e), c)) =
    some (ready (err e), record (set c) { termination = error })

module _ {A B S : Type 0} (ra : AsyncRead A) (wa : AsyncWrite A) (rb : AsyncRead B)
    (wb : AsyncWrite B) (sleep : Sleep S) where
  -- The poll of b_to_a and what follows it, with the counts from before the poll.
  unfoldable pub poll_down : ℕ → ℕ → ℕ → Relaying A B S → Polled A B S
  unfolding directed settle down set_down poll_copy
  poll_down fuel up_before down_before s =
      let polled =
        directed (set_down s) (λ t. some (settle sleep up_before down_before t))
          (poll_copy rb wa fuel (down s)) in
      if s.b_to_a.shutdown_done then some (settle sleep up_before down_before s) else polled

  -- One call of the closure of `poll_fn`.
  unfoldable pub poll_relay : ℕ → Relaying A B S → Polled A B S
  unfolding directed poll_down up set_up poll_copy
  poll_relay fuel s =
      let rest = poll_down fuel s.a_to_b.amt s.b_to_a.amt in
      let polled = directed (set_up s) rest (poll_copy ra wb fuel (up s)) in
      if s.a_to_b.shutdown_done then rest s else polled

  -- The future, polled once for each of the fuels of the list, until it is ready.
  unfoldable pub poll_all : List ℕ → Relaying A B S → Polled A B S
  unfolding poll_relay
  poll_all [] s = some (pending, s)
  poll_all (fuel ∷ fuels) s = elim (poll_relay fuel s) [
    | none ↦ none
    | some (pending, t) ↦ poll_all fuels t
    | some (ready result, t) ↦ some (ready result, t)
  ]

pub record CopyResult : Type 0 where
  pub a_to_b : ℕ
  pub b_to_a : ℕ
  pub completed : Bool
  pub termination : RelayTermination
  pub client_eof : Bool
  pub remote_eof : Bool

-- The calls of the statistics collector, with the user's id.
pub data Recorded : Type 0 where
  record_upload record_download : ℕ → ℕ → Recorded

unfoldable pub recorded : Option ℕ → ℕ → ℕ → List Recorded
recorded none up_bytes down_bytes = []
recorded (some user_id) up_bytes down_bytes =
    (if ltb 0 up_bytes then record_upload user_id up_bytes ∷ [] else [])
    ++ (if ltb 0 down_bytes then record_download user_id down_bytes ∷ [] else [])

unfoldable pub copy_result : {A B S : Type 0} → IoResult Bool → Relaying A B S → IoResult CopyResult
copy_result (err e) s = err e
copy_result (ok done) s = ok (record {
  a_to_b = s.a_to_b.amt;
  b_to_a = s.b_to_a.amt;
  completed = done;
  termination = s.termination;
  client_eof = s.a_to_b.read_done;
  remote_eof = s.b_to_a.read_done;
})

unfoldable pub begin : {A B S : Type 0} → ℕ → Bool → A → B → S → Relaying A B S
unfolding new
begin buffer_size suppress_a_to_b_shutdown a b idle = record {
  a_to_b = new buffer_size suppress_a_to_b_shutdown;
  b_to_a = new buffer_size false;
  a = a;
  b = b;
  idle_sleep = idle;
  termination = completed;
}

-- What the caller gets with the two streams: still pending, or the result and the calls recorded.
unfoldable pub finish :
    {A B S : Type 0}
    → Option ℕ
    → Polled A B S
    → Option (Poll (IoResult CopyResult × List Recorded) × (A × B))
unfolding copy_result recorded
finish stats none = none
finish stats (some (pending, s)) = some (pending, (s.a, s.b))
finish stats (some (ready result, s)) =
    some (ready (copy_result result s, recorded stats s.a_to_b.amt s.b_to_a.amt), (s.a, s.b))

unfoldable pub copy_bidirectional_with_stats :
    {A B S : Type 0}
    → AsyncRead A
    → AsyncWrite A
    → AsyncRead B
    → AsyncWrite B
    → Sleep S
    → List ℕ
    → A
    → B
    → S
    → ℕ
    → Option ℕ
    → Bool
    → Option (Poll (IoResult CopyResult × List Recorded) × (A × B))
unfolding begin poll_all finish
copy_bidirectional_with_stats ra wa rb wb sleep fuels a b idle buffer_size stats
      suppress_a_to_b_shutdown =
    finish stats
      (poll_all ra wa rb wb sleep fuels (begin buffer_size suppress_a_to_b_shutdown a b idle))
