-- ===== src/Relay/Idle.antt =====
-- The idle timer of the relay.
use server_naive_rs.Common.{
  ℕ, ◌+◌, ◌≤◌, ◌<◌, ◌≡◌, ◌⊎◌, inl, inr, refl, arith, Bool, true, false, ◌&&◌, ◌||◌, ltb, List,
  length, Option, none, some, if◌then◌else◌,
}
use server_naive_rs.Stream.{AsyncRead, AsyncWrite, IoResult, ok, err, Poll, pending, ready}
use server_naive_rs.Relay.{Copying, poll_copy}
use server_naive_rs.Relay.Duplex.{IsDuplex, RelayGood, RelayOutcome, poll_relay-RelayOutcome}
use server_naive_rs.Relay.Bidirectional.{
  Relaying, Sleep, completed, idle_timeout, up, down, set_up, set_down, Polled, settle, directed,
  poll_down, poll_relay,
}

module _ {A B S : Type 0} (sleep : Sleep S) (idle : S) (up_before down_before : ℕ) where
  -- The timer's answer: of the timer as it was where no count grew, and of the timer reset where one did.
  abbrev pub Asked : Relaying A B S → Bool → Type 0
  Asked s b =
      (((up_before < s.a_to_b.amt) ⊎ (down_before < s.b_to_a.amt))
        × ((sleep.elapsed (sleep.reset idle)).0 ≡ b))
      ⊎ ((s.a_to_b.amt ≤ up_before) × (s.b_to_a.amt ≤ down_before) × ((sleep.elapsed idle).0 ≡ b))

  -- What the timer has to do with the end of a poll that returns.
  abbrev pub TimedEnd : Poll (IoResult Bool) × Relaying A B S → Type 0
  TimedEnd (pending, s) =
      ((s.a_to_b.shutdown_done && s.b_to_a.shutdown_done) ≡ false) × Asked s false
  TimedEnd (ready (ok true), s) = (s.a_to_b.shutdown_done && s.b_to_a.shutdown_done) ≡ true
  TimedEnd (ready (ok false), s) =
      ((s.a_to_b.shutdown_done && s.b_to_a.shutdown_done) ≡ false) × Asked s true
  TimedEnd (ready (err e), s) = Unit

  abbrev pub Timed : Polled A B S → Type 0
  Timed none = ⊥
  Timed (some end) = TimedEnd end

  abbrev TimedOrOut : Polled A B S → Type 0
  TimedOrOut none = Unit
  TimedOrOut (some end) = TimedEnd end

  settle-TimedEnd :
      (s : Relaying A B S) → s.idle_sleep ≡ idle → TimedEnd (settle sleep up_before down_before s)
  unfolding settle
  settle-TimedEnd s same =
      go (ltb up_before s.a_to_b.amt) (ltb down_before s.b_to_a.amt) refl refl
        (s.a_to_b.shutdown_done && s.b_to_a.shutdown_done) refl
    where
      asked :
          (r : Bool × S)
          → ((s.a_to_b.shutdown_done && s.b_to_a.shutdown_done) ≡ false)
          → Asked s r.0
          → TimedEnd (
              if r.0
              then (ready (ok false), record s { idle_sleep = r.1; termination = idle_timeout })
              else (pending, record s { idle_sleep = r.1 }))
      asked (true, t) some_open h = (some_open, h)
      asked (false, t) some_open h = (some_open, h)

      grown :
          (x : S)
          → x ≡ idle
          → (sleep.elapsed (sleep.reset idle)).0 ≡ (sleep.elapsed (sleep.reset x)).0
      grown x e = rw e refl

      kept : (x : S) → x ≡ idle → (sleep.elapsed idle).0 ≡ (sleep.elapsed x).0
      kept x e = rw e refl

      go :
          (x y : Bool)
          → ltb up_before s.a_to_b.amt ≡ x
          → ltb down_before s.b_to_a.amt ≡ y
          → (z : Bool) → (s.a_to_b.shutdown_done && s.b_to_a.shutdown_done) ≡ z
          → TimedEnd (
              let idle = if x || y then sleep.reset s.idle_sleep else s.idle_sleep in
              if z
              then (ready (ok true), record s { idle_sleep = idle; termination = completed })
              else (if (sleep.elapsed idle).0
                  then (
                    ready (ok false),
                    record s { idle_sleep = (sleep.elapsed idle).1; termination = idle_timeout },
                  )
                  else (pending, record s { idle_sleep = (sleep.elapsed idle).1 })))
      go x y ex ey true e = e
      go true y ex ey false e =
          asked (sleep.elapsed (sleep.reset s.idle_sleep)) e
            (inl (inl (ground arith), grown s.idle_sleep same))
      go false true ex ey false e =
          asked (sleep.elapsed (sleep.reset s.idle_sleep)) e
            (inl (inr (ground arith), grown s.idle_sleep same))
      go false false ex ey false e =
          asked (sleep.elapsed s.idle_sleep) e
            (inr (ground arith, ground arith, kept s.idle_sleep same))

  directed-TimedOrOut :
      {C D : Type 0} (set : Copying C D → Relaying A B S) (next : Relaying A B S → Polled A B S)
      → ((c : Copying C D) → TimedOrOut (next (set c)))
      → (o : Option (Poll (IoResult (Unit {0})) × Copying C D)) → TimedOrOut (directed set next o)
  unfolding directed
  directed-TimedOrOut set next h none = tt
  directed-TimedOrOut set next h (some (pending, c)) = h c
  directed-TimedOrOut set next h (some (ready (ok u), c)) = h c
  directed-TimedOrOut set next h (some (ready (err e), c)) = tt

module _ {A B S : Type 0} (ra : AsyncRead A) (wa : AsyncWrite A) (rb : AsyncRead B)
    (wb : AsyncWrite B) (sleep : Sleep S) where
  poll_down-TimedOrOut :
      (idle : S) (fuel up_before down_before : ℕ) (s : Relaying A B S)
      → s.idle_sleep ≡ idle
      → TimedOrOut sleep idle up_before down_before
          (poll_down ra wa rb wb sleep fuel up_before down_before s)
  unfolding poll_down set_down
  poll_down-TimedOrOut idle fuel up_before down_before s same = go s.b_to_a.shutdown_done
    where
      go :
          (b : Bool)
          → TimedOrOut sleep idle up_before down_before (
              if b
              then some (settle sleep up_before down_before s)
              else directed
                  (set_down s)
                  (λ t. some (settle sleep up_before down_before t))
                  (poll_copy rb wa fuel (down s)))
      go true = settle-TimedEnd sleep idle up_before down_before s same
      go false =
          directed-TimedOrOut sleep idle up_before down_before (set_down s)
            (λ t. some (settle sleep up_before down_before t))
            (λ c. settle-TimedEnd sleep idle up_before down_before (set_down s c) same)
            (poll_copy rb wa fuel (down s))

  poll_relay-TimedOrOut :
      (fuel : ℕ) (s : Relaying A B S)
      → TimedOrOut sleep s.idle_sleep s.a_to_b.amt s.b_to_a.amt
          (poll_relay ra wa rb wb sleep fuel s)
  unfolding poll_relay set_up
  poll_relay-TimedOrOut fuel s = go s.a_to_b.shutdown_done
    where
      rest : Relaying A B S → Polled A B S
      rest = poll_down ra wa rb wb sleep fuel s.a_to_b.amt s.b_to_a.amt

      go :
          (b : Bool)
          → TimedOrOut sleep s.idle_sleep s.a_to_b.amt s.b_to_a.amt
              (if b then rest s else directed (set_up s) rest (poll_copy ra wb fuel (up s)))
      go true = poll_down-TimedOrOut s.idle_sleep fuel s.a_to_b.amt s.b_to_a.amt s refl
      go false =
          directed-TimedOrOut sleep s.idle_sleep s.a_to_b.amt s.b_to_a.amt (set_up s) rest
            (λ c.
              poll_down-TimedOrOut s.idle_sleep fuel s.a_to_b.amt s.b_to_a.amt (set_up s c) refl)
            (poll_copy ra wb fuel (up s))

module _ {A B S : Type 0} (ra : AsyncRead A) (wa : AsyncWrite A) (in_a out_a : A → List ℕ)
    (da : IsDuplex ra wa in_a out_a) (rb : AsyncRead B) (wb : AsyncWrite B)
    (in_b out_b : B → List ℕ) (db : IsDuplex rb wb in_b out_b) (sleep : Sleep S)
    (before_a before_b all_a all_b : List ℕ) where
  -- Given two streams that keep their contracts and two directions that carry `all_a` and `all_b`, and
  -- more passes than either has bytes and one, a poll of the relay returns. Unless an error ends it or
  -- both directions are done, it asks the timer: reset where a direction's count grew in the poll, and as
  -- it stood where none did. It ends by the idle timeout exactly if that timer has elapsed, and is
  -- pending exactly if it has not.
  pub poll_relay-Timed :
      (fuel : ℕ) (s : Relaying A B S)
      → length all_a + 1 < fuel
      → length all_b + 1 < fuel
      → RelayGood ra wa in_a out_a da rb wb in_b out_b db sleep before_a before_b all_a all_b s
      → Timed sleep s.idle_sleep s.a_to_b.amt s.b_to_a.amt (poll_relay ra wa rb wb sleep fuel s)
  poll_relay-Timed fuel s lt_a lt_b g =
      go (poll_relay ra wa rb wb sleep fuel s)
        (poll_relay-RelayOutcome ra wa in_a out_a da rb wb in_b out_b db sleep before_a before_b
          all_a all_b fuel s lt_a lt_b g)
        (poll_relay-TimedOrOut ra wa rb wb sleep fuel s)
    where
      go :
          (o : Polled A B S)
          → RelayOutcome ra wa in_a out_a da rb wb in_b out_b db sleep before_a before_b all_a all_b
              o
          → TimedOrOut sleep s.idle_sleep s.a_to_b.amt s.b_to_a.amt o
          → Timed sleep s.idle_sleep s.a_to_b.amt s.b_to_a.amt o
      go none h t = h
      go (some end) h t = t
