-- ===== src/Relay/Outcome.antt =====
-- What the caller of copy_bidirectional_with_stats learns.
use server_naive_rs.Common.{
  ℕ, ◌+◌, ◌%◌, ◌^◌, ◌<◌, ◌≡◌, refl, sym, ap, ◌∙◌, arith, Bool, true, false, List, [], ◌++◌, length,
  All, Option, none, some, append-nil,
}
use server_naive_rs.Stream.{AsyncRead, AsyncWrite, IoResult, ok, err, Poll, pending, ready}
use server_naive_rs.Relay.{new, Copying}
use server_naive_rs.Relay.Invariant.{IsReliable, unsent, Carried, Sent}
use server_naive_rs.Relay.Round.{Ended}
use server_naive_rs.Relay.Bidirectional.{
  Sleep, completed, idle_timeout, up, down, Polled, poll_all, begin, finish, copy_result, recorded,
  Recorded, CopyResult, copy_bidirectional_with_stats,
}
use server_naive_rs.Relay.Duplex.{IsDuplex, RelayOutcome, poll_all-RelayOutcome}

-- Of `all`, a first part has been written behind `before`, and its length is the figure `amt`.
pub record Delivered {W : Type 0} (outgoing : W → List ℕ) (before all : List ℕ) (amt : ℕ) (t : W)
    : Type 0 where
  pub sent : List ℕ
  pub rest : List ℕ
  pub behind : outgoing t ≡ before ++ sent
  pub whole : sent ++ rest ≡ all
  pub counted : amt ≡ length sent % 2 ^ 64

Sent-Delivered :
    {R W : Type 0} {outgoing : W → List ℕ} {before all : List ℕ} (c : Copying R W)
    → Sent outgoing before all c
    → Delivered outgoing before all c.st.amt c.writer
Sent-Delivered c g = record {
  sent = g.sent;
  rest = unsent c.st ++ g.rest;
  behind = g.behind;
  whole = g.whole;
  counted = g.counted;
}

Carried-Delivered :
    {R W : Type 0} {r : AsyncRead R} {incoming : R → List ℕ} {outgoing : W → List ℕ}
    {before all : List ℕ} (c : Copying R W)
    → Carried r incoming outgoing before all c
    → Delivered outgoing before all c.st.amt c.writer
Carried-Delivered c g = record {
  sent = g.sent;
  rest = unsent c.st ++ g.rest;
  behind = g.behind;
  whole = g.whole;
  counted = g.counted;
}

-- A direction that has ended behind a reliable reader has delivered all.
Ended-all :
    {R W : Type 0} {r : AsyncRead R} {incoming : R → List ℕ} {outgoing : W → List ℕ}
    {before all : List ℕ} (c : Copying R W)
    → Carried r incoming outgoing before all c
    → Ended c
    → IsReliable r
    → (outgoing c.writer ≡ before ++ all) × (c.st.amt ≡ length all % 2 ^ 64)
Ended-all {before} {all} c g e reliable =
    (g.behind ∙ ap (◌++◌ before) every, g.counted ∙ ap (λ xs. length xs % 2 ^ 64) every)
  where
    nothing : unsent c.st ++ g.rest ≡ []
    nothing = rw (e.2, g.ended reliable e.1) refl

    every : g.sent ≡ all
    every = sym (append-nil g.sent) ∙ ap (◌++◌ g.sent) (sym nothing) ∙ g.whole

pub new-Carried :
    {R W : Type 0} (r : AsyncRead R) (incoming : R → List ℕ) (outgoing : W → List ℕ) (t : R) (u : W)
    (buf_size : ℕ) (suppress : Bool)
    → 0 < buf_size
    → Carried r incoming outgoing
        (outgoing u)
        (incoming t)
        (record { st = new buf_size suppress; reader = t; writer = u })
unfolding new
new-Carried r incoming outgoing t u buf_size suppress lt = record {
  sent = [];
  rest = incoming t;
  behind = sym (append-nil (outgoing u));
  whole = refl;
  counted = refl;
  in_range = omega arith;
  ahead = λ _. refl;
  ended = λ _ x. cc;
  closed = λ x. cc;
  roomy = lt;
}

module _ {A B S : Type 0} (ra : AsyncRead A) (wa : AsyncWrite A) (in_a out_a : A → List ℕ)
    (da : IsDuplex ra wa in_a out_a) (rb : AsyncRead B) (wb : AsyncWrite B)
    (in_b out_b : B → List ℕ) (db : IsDuplex rb wb in_b out_b) (sleep : Sleep S) (a : A)
    (b : B) where
  -- Both sides have got a first part of what the other sends.
  abbrev pub BothDelivered : ℕ → ℕ → A → B → Type 0
  BothDelivered up_bytes down_bytes a' b' =
      Delivered out_b (out_b b) (in_a a) up_bytes b'
      × Delivered out_a (out_a a) (in_b b) down_bytes a'

  abbrev BothAll : CopyResult → A → B → Type 0
  BothAll result a' b' =
      (result.client_eof ≡ true)
      × (result.remote_eof ≡ true)
      × (result.termination ≡ completed)
      × (IsReliable ra
          → (out_b b' ≡ out_b b ++ in_a a) × (result.a_to_b ≡ length (in_a a) % 2 ^ 64))
      × (IsReliable rb
          → (out_a a' ≡ out_a a ++ in_b b) × (result.b_to_a ≡ length (in_b b) % 2 ^ 64))

  -- What the caller may rely on, for the statistics it asked for.
  abbrev pub CallerSees :
      Option ℕ → Option (Poll (IoResult CopyResult × List Recorded) × (A × B)) → Type 0
  CallerSees stats none = ⊥
  CallerSees stats (some (pending, t)) = (n : ℕ) × (m : ℕ) × BothDelivered n m t.0 t.1
  CallerSees stats (some (ready (ok result, calls), t)) =
      BothDelivered result.a_to_b result.b_to_a t.0 t.1
      × (calls ≡ recorded stats result.a_to_b result.b_to_a)
      × (result.completed ≡ true → BothAll result t.0 t.1)
      × (result.completed ≡ false → result.termination ≡ idle_timeout)
  CallerSees stats (some (ready (err e, calls), t)) =
      (n : ℕ) × (m : ℕ) × BothDelivered n m t.0 t.1 × (calls ≡ recorded stats n m)

  finish-CallerSees :
      (stats : Option ℕ) (o : Polled A B S)
      → RelayOutcome ra wa in_a out_a da rb wb in_b out_b db sleep
          (out_a a)
          (out_b b)
          (in_a a)
          (in_b b)
          o
      → CallerSees stats (finish stats o)
  unfolding finish copy_result up down
  finish-CallerSees stats none h = h
  finish-CallerSees stats (some (pending, s)) h =
      (s.a_to_b.amt, s.b_to_a.amt, (Carried-Delivered (up s) h.0, Carried-Delivered (down s) h.1))
  finish-CallerSees stats (some (ready (ok true), s)) h = (
    (Carried-Delivered (up s) h.0.0, Carried-Delivered (down s) h.0.1),
    refl,
    λ _. (h.1.0.1, h.1.1.1, h.2, Ended-all (up s) h.0.0 h.1.0, Ended-all (down s) h.0.1 h.1.1),
    λ x. cc,
  )
  finish-CallerSees stats (some (ready (ok false), s)) h = (
    (Carried-Delivered (up s) h.0.0, Carried-Delivered (down s) h.0.1),
    refl,
    (λ x. cc),
    λ _. h.1,
  )
  finish-CallerSees stats (some (ready (err e), s)) h = (
    s.a_to_b.amt,
    s.b_to_a.amt,
    (Sent-Delivered (up s) h.0.0, Sent-Delivered (down s) h.0.1),
    refl,
  )

  -- Given two streams that keep their contracts, a buffer that has room, and for each poll more passes
  -- than either stream has bytes and one, any number of polls of the relay leaves both sides with a
  -- first part of what the other sends. A result carries the lengths of these parts (to 2^64), with
  -- those above zero recorded, and is completed or has the idle timeout. Where it is completed both
  -- ends of file were seen, and a side whose reads never fail has had every byte delivered.
  pub copy_bidirectional_with_stats_lem :
      (fuels : List ℕ) (idle : S) (buffer_size : ℕ) (stats : Option ℕ) (suppress : Bool)
      → 0 < buffer_size
      → All (λ n. (length (in_a a) + 1 < n) × (length (in_b b) + 1 < n)) fuels
      → CallerSees stats (
          copy_bidirectional_with_stats ra wa rb wb sleep fuels a b idle buffer_size stats suppress)
  unfolding copy_bidirectional_with_stats begin up down
  copy_bidirectional_with_stats_lem fuels idle buffer_size stats suppress lt enough =
      finish-CallerSees stats
        (poll_all ra wa rb wb sleep fuels (begin buffer_size suppress a b idle))
        (poll_all-RelayOutcome ra wa in_a out_a da rb wb in_b out_b db sleep (out_a a) (out_b b)
          (in_a a) (in_b b) fuels (begin buffer_size suppress a b idle) enough
          (
            new-Carried ra in_a out_b a b buffer_size suppress lt,
            new-Carried rb in_b out_a b a buffer_size false lt,
          ))
