-- ===== src/Relay/Duplex.antt =====
-- A poll of the two directions over two streams that keep what they carry apart.
use server_naive_rs.Common.{
  arith, ℕ, ◌+◌, ◌<◌, ◌≡◌, refl, ◌∙◌, Bool, true, false, ◌&&◌, ◌||◌, ltb, List, [], ◌∷◌, length,
  All, Option, none, some, if◌then◌else◌,
}
use server_naive_rs.Stream.{
  AsyncRead, AsyncWrite, IsReader, IsWriter, IoResult, ok, err, Poll, pending, ready,
}
use server_naive_rs.Relay.{Copying, poll_copy}
use server_naive_rs.Relay.Invariant.{Carried, Carried-moved, Sent, IsKept}
use server_naive_rs.Relay.Round.{Ended}
use server_naive_rs.Relay.Round.{budget-bound}
use server_naive_rs.Relay.Copy.{CopyGood, poll_copy-CopyGood}
use server_naive_rs.Relay.Bidirectional.{
  Relaying, Sleep, RelayTermination, completed, idle_timeout, error, up, down, set_up, set_down,
  Polled, settle, directed, poll_down, poll_relay, poll_all,
}

-- A stream both ways: reading leaves alone what has been written, and writing what is to be read.
pub record IsDuplex {T : Type 0} (r : AsyncRead T) (w : AsyncWrite T)
    (incoming outgoing : T → List ℕ) : Type 0 where
  pub reader : IsReader r incoming
  pub writer : IsWriter w outgoing
  pub reads : (t : T) (room : ℕ) → outgoing (r.poll_read t room).1 ≡ outgoing t
  pub writes : (t : T) (buf : List ℕ) → incoming (w.poll_write t buf).1 ≡ incoming t
  pub flushes : (t : T) → incoming (w.poll_flush t).1 ≡ incoming t
  pub shuts : (t : T) → incoming (w.poll_shutdown t).1 ≡ incoming t

module _ {A B S : Type 0} (ra : AsyncRead A) (wa : AsyncWrite A) (in_a out_a : A → List ℕ)
    (da : IsDuplex ra wa in_a out_a) (rb : AsyncRead B) (wb : AsyncWrite B)
    (in_b out_b : B → List ℕ) (db : IsDuplex rb wb in_b out_b) (sleep : Sleep S)
    (before_a before_b all_a all_b : List ℕ) where
  kept_up : IsKept ra wb out_a in_b
  kept_up = record { reads = da.reads; writes = db.writes; flushes = db.flushes; shuts = db.shuts }

  kept_down : IsKept rb wa out_b in_a
  kept_down = record {
    reads = db.reads;
    writes = da.writes;
    flushes = da.flushes;
    shuts = da.shuts;
  }

  abbrev UpGood : Copying A B → Type 0
  UpGood c = Carried ra in_a out_b before_b all_a c

  abbrev DownGood : Copying B A → Type 0
  DownGood c = Carried rb in_b out_a before_a all_b c

  abbrev pub RelayGood : Relaying A B S → Type 0
  RelayGood s = UpGood (up s) × DownGood (down s)

  abbrev pub RelaySent : Relaying A B S → Type 0
  RelaySent s = Sent out_b before_b all_a (up s) × Sent out_a before_a all_b (down s)

  abbrev pub RelayEnded : Relaying A B S → Type 0
  RelayEnded s = Ended (up s) × Ended (down s)

  -- What a poll of the relay leaves.
  abbrev pub RelayOutcome : Polled A B S → Type 0
  RelayOutcome none = ⊥
  RelayOutcome (some (pending, s)) = RelayGood s
  RelayOutcome (some (ready (ok true), s)) =
      RelayGood s × RelayEnded s × (s.termination ≡ completed)
  RelayOutcome (some (ready (ok false), s)) = RelayGood s × (s.termination ≡ idle_timeout)
  RelayOutcome (some (ready (err e), s)) = RelaySent s × (s.termination ≡ error)

  settle-RelayOutcome :
      (up_before down_before : ℕ) (s : Relaying A B S)
      → RelayGood s
      → RelayOutcome (some (settle sleep up_before down_before s))
  unfolding settle up down
  settle-RelayOutcome up_before down_before s g =
      go
        (if ltb up_before s.a_to_b.amt || ltb down_before s.b_to_a.amt
          then sleep.reset s.idle_sleep
          else s.idle_sleep)
        (sleep.elapsed (
          if ltb up_before s.a_to_b.amt || ltb down_before s.b_to_a.amt
          then sleep.reset s.idle_sleep
          else s.idle_sleep))
        s.a_to_b.shutdown_done s.b_to_a.shutdown_done refl refl
    where
      kept :
          (t : S) (e : RelayTermination) → RelayGood (record s { idle_sleep = t; termination = e })
      kept t e = (Carried-moved g.0 refl refl refl, Carried-moved g.1 refl refl refl)

      go :
          (idle : S) (asked : Bool × S) (x y : Bool)
          → s.a_to_b.shutdown_done ≡ x
          → s.b_to_a.shutdown_done ≡ y
          → RelayOutcome (
              some (
                if x && y
                then (ready (ok true), record s { idle_sleep = idle; termination = completed })
                else (if asked.0
                    then (
                      ready (ok false),
                      record s { idle_sleep = asked.1; termination = idle_timeout },
                    )
                    else (pending, record s { idle_sleep = asked.1 }))))
      go idle asked true true p q = (
        kept idle completed,
        ((p, (g.0.closed p).0, (g.0.closed p).1), (q, (g.1.closed q).0, (g.1.closed q).1)),
        refl,
      )
      go idle (true, t) true false p q = (kept t idle_timeout, refl)
      go idle (true, t) false y p q = (kept t idle_timeout, refl)
      go idle (false, t) true false p q = kept t s.termination
      go idle (false, t) false y p q = kept t s.termination

  poll_down-RelayOutcome :
      (fuel up_before down_before : ℕ) (s : Relaying A B S)
      → length all_b + 1 < fuel
      → RelayGood s
      → RelayOutcome (poll_down ra wa rb wb sleep fuel up_before down_before s)
  unfolding poll_down directed up down set_up set_down
  poll_down-RelayOutcome fuel up_before down_before s lt g = go s.b_to_a.shutdown_done
    where
      polled :
          (o : Option (Poll (IoResult (Unit {0})) × Copying B A))
          → CopyGood rb in_b db.reader wa out_a da.writer before_a all_b out_b in_a kept_down
              (down s)
              o
          → RelayOutcome
              (directed (set_down s) (λ t. some (settle sleep up_before down_before t)) o)
      polled none h = h
      polled (some (pending, c)) h =
          settle-RelayOutcome up_before down_before (set_down s c)
            (Carried-moved g.0 refl h.1.1 h.1.0, h.0)
      polled (some (ready (ok u), c)) h =
          settle-RelayOutcome up_before down_before (set_down s c)
            (Carried-moved g.0 refl h.1.1 h.1.0, h.0)
      polled (some (ready (err e), c)) h = (
        (
          record {
            sent = g.0.sent;
            rest = g.0.rest;
            behind = h.1.0 ∙ g.0.behind;
            whole = g.0.whole;
            counted = g.0.counted;
          },
          h.0,
        ),
        refl,
      )

      go :
          (b : Bool)
          → RelayOutcome (
              if b
              then some (settle sleep up_before down_before s)
              else directed
                  (set_down s)
                  (λ t. some (settle sleep up_before down_before t))
                  (poll_copy rb wa fuel (down s)))
      go true = settle-RelayOutcome up_before down_before s g
      go false = polled (poll_copy rb wa fuel (down s)) (
          poll_copy-CopyGood rb in_b db.reader wa out_a da.writer before_a all_b out_b in_a
            kept_down fuel (down s) g.1
            (omega (
              arith,
              lt,
              budget-bound rb in_b db.reader wa out_a da.writer before_a all_b out_b in_a kept_down
                  (down s) g.1,
            )))

  -- Given two streams that keep their contracts and two directions that carry `all_a` and `all_b`, and
  -- more passes than either has bytes and one, a poll of the relay returns. Pending or timed out, both
  -- directions still carry what they did; completed, both have ended with nothing left to send; after
  -- an error each side has got a first part of what the other sent, and the amount is counted. The
  -- termination tells these apart.
  pub poll_relay-RelayOutcome :
      (fuel : ℕ) (s : Relaying A B S)
      → length all_a + 1 < fuel
      → length all_b + 1 < fuel
      → RelayGood s
      → RelayOutcome (poll_relay ra wa rb wb sleep fuel s)
  unfolding poll_relay directed up down set_up
  poll_relay-RelayOutcome fuel s lt_a lt_b g = go s.a_to_b.shutdown_done
    where
      rest : Relaying A B S → Polled A B S
      rest = poll_down ra wa rb wb sleep fuel s.a_to_b.amt s.b_to_a.amt

      then_down : (t : Relaying A B S) → RelayGood t → RelayOutcome (rest t)
      then_down t h = poll_down-RelayOutcome fuel s.a_to_b.amt s.b_to_a.amt t lt_b h

      polled :
          (o : Option (Poll (IoResult (Unit {0})) × Copying A B))
          → CopyGood ra in_a da.reader wb out_b db.writer before_b all_a out_a in_b kept_up (up s) o
          → RelayOutcome (directed (set_up s) rest o)
      polled none h = h
      polled (some (pending, c)) h =
          then_down (set_up s c) (h.0, Carried-moved g.1 refl h.1.1 h.1.0)
      polled (some (ready (ok u), c)) h =
          then_down (set_up s c) (h.0, Carried-moved g.1 refl h.1.1 h.1.0)
      polled (some (ready (err e), c)) h = (
        (
          h.0,
          record {
            sent = g.1.sent;
            rest = g.1.rest;
            behind = h.1.0 ∙ g.1.behind;
            whole = g.1.whole;
            counted = g.1.counted;
          },
        ),
        refl,
      )

      go :
          (b : Bool)
          → RelayOutcome
              (if b then rest s else directed (set_up s) rest (poll_copy ra wb fuel (up s)))
      go true = then_down s g
      go false = polled (poll_copy ra wb fuel (up s)) (
          poll_copy-CopyGood ra in_a da.reader wb out_b db.writer before_b all_a out_a in_b kept_up
            fuel (up s) g.0
            (omega (
              arith,
              lt_a,
              budget-bound ra in_a da.reader wb out_b db.writer before_b all_a out_a in_b kept_up
                  (up s) g.0,
            )))

  pub poll_all-RelayOutcome :
      (fuels : List ℕ) (s : Relaying A B S)
      → All (λ n. (length all_a + 1 < n) × (length all_b + 1 < n)) fuels
      → RelayGood s
      → RelayOutcome (poll_all ra wa rb wb sleep fuels s)
  unfolding poll_all
  poll_all-RelayOutcome [] s lt g = g
  poll_all-RelayOutcome (n ∷ fuels) s lt g =
      polled (poll_relay ra wa rb wb sleep n s) (poll_relay-RelayOutcome n s (lt.0).0 (lt.0).1 g)
        (λ t. poll_all-RelayOutcome fuels t lt.1)
    where
      polled :
          (o : Polled A B S)
          → RelayOutcome o
          → ((t : Relaying A B S) → RelayGood t → RelayOutcome (poll_all ra wa rb wb sleep fuels t))
          → RelayOutcome (elim o [
            | none ↦ none
            | some (pending, t) ↦ poll_all ra wa rb wb sleep fuels t
            | some (ready result, t) ↦ some (ready result, t)
          ])
      polled none h again = h
      polled (some (pending, t)) h again = again t h
      polled (some (ready (ok true), t)) h again = h
      polled (some (ready (ok false), t)) h again = h
      polled (some (ready (err e), t)) h again = h
