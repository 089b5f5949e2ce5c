-- ===== src/Tunnel/Relaying.antt =====
-- The end of a tunnel's relay, and the registry behind it.
use server_naive_rs.Common.{
  ℕ, zero, suc, ◌+◌, ◌<◌, ◌≡◌, refl, ◌∙◌, true, false, List, [], length, All, Option, none, some,
}
use server_naive_rs.Stream.{
  AsyncRead, AsyncWrite, IsWriter, IoResult, ok, err, Poll, pending, ready,
}
use server_naive_rs.Relay.Bidirectional.{
  Sleep, CopyResult, Recorded, recorded, copy_bidirectional_with_stats,
}
use server_naive_rs.Relay.Duplex.{IsDuplex}
use server_naive_rs.Relay.Outcome.{
  Delivered, BothDelivered, CallerSees, copy_bidirectional_with_stats_lem,
}
use server_naive_rs.Tunnel.{shutdown, RelayEnd, Polls, relayed, relay}

shutdown-kept :
    {T : Type 0} (w : AsyncWrite T) (outgoing : T → List ℕ) (h : IsWriter w outgoing) (polls : ℕ)
    (t : T)
    → outgoing (shutdown w polls t) ≡ outgoing t
unfolding shutdown
shutdown-kept w outgoing h zero t = refl
shutdown-kept w outgoing h (suc polls) t =
    go (w.poll_shutdown t).0 (shutdown-kept w outgoing h polls (w.poll_shutdown t).1)
  where
    go :
        (p : Poll (IoResult (Unit {0})))
        → outgoing (shutdown w polls (w.poll_shutdown t).1) ≡ outgoing (w.poll_shutdown t).1
        → outgoing (elim p [
          | pending ↦ shutdown w polls (w.poll_shutdown t).1
          | ready result ↦ (w.poll_shutdown t).1
        ])
          ≡ outgoing t
    go pending e = e ∙ h.shuts t
    go (ready result) e = h.shuts t

Delivered-moved :
    {W : Type 0} {outgoing : W → List ℕ} {before all : List ℕ} {n : ℕ} {t t' : W}
    → outgoing t' ≡ outgoing t
    → Delivered outgoing before all n t
    → Delivered outgoing before all n t'
Delivered-moved e d = record {
  sent = d.sent;
  rest = d.rest;
  behind = e ∙ d.behind;
  whole = d.whole;
  counted = d.counted;
}

module _ {A R S : Type 0} (ra : AsyncRead A) (wa : AsyncWrite A) (in_a out_a : A → List ℕ)
    (da : IsDuplex ra wa in_a out_a) (rr : AsyncRead R) (wr : AsyncWrite R)
    (in_r out_r : R → List ℕ) (dr : IsDuplex rr wr in_r out_r) (sleep : Sleep S) (a : A) (r : R)
    (user_id : ℕ) where
  -- How a relay may end.
  abbrev pub RelaySeen : Option (RelayEnd A R) → Type 0
  RelaySeen none = ⊥
  RelaySeen (some e) =
      (n : ℕ) × (m : ℕ) × BothDelivered ra wa in_a out_a da rr wr in_r out_r dr sleep a r n m
        e.padded e.remote
      × (e.cancelled ≡ false → e.calls ≡ recorded (some user_id) n m)
      × (e.cancelled ≡ true → e.calls ≡ [])

  relayed-RelaySeen :
      (polls : Polls) (o : Option (Poll (IoResult CopyResult × List Recorded) × (A × R)))
      → CallerSees ra wa in_a out_a da rr wr in_r out_r dr sleep a r (some user_id) o
      → RelaySeen (relayed wa wr polls o)
  unfolding relayed
  relayed-RelaySeen polls none h = h
  relayed-RelaySeen polls (some (pending, (x, y))) h = (
    h.0,
    h.1,
    (
      Delivered-moved (shutdown-kept wr out_r dr.writer polls.remote_shutdown y) h.2.0,
      Delivered-moved (shutdown-kept wa out_a da.writer polls.padded_shutdown x) h.2.1,
    ),
    (λ e. cc),
    λ e. refl,
  )
  relayed-RelaySeen polls (some (ready (ok result, calls), (x, y))) h =
      (result.a_to_b, result.b_to_a, h.0, (λ e. h.1), λ e. cc)
  relayed-RelaySeen polls (some (ready (err e, calls), (x, y))) h =
      (h.0, h.1, h.2, (λ _. h.3), λ q. cc)

  -- Given two streams that keep their contracts, a buffer with room and enough passes for each poll, the
  -- relay of a tunnel ends, by itself or kicked, with each side having a first part of what the other
  -- sends. Where it ended by itself the lengths of these parts are recorded for the user; where it was
  -- kicked nothing is recorded.
  pub relay-RelaySeen :
      (idle : S) (buffer_size : ℕ) (polls : Polls)
      → 0 < buffer_size
      → All (λ n. (length (in_a a) + 1 < n) × (length (in_r r) + 1 < n)) polls.relaying
      → RelaySeen (relay ra wa rr wr sleep idle buffer_size polls user_id a r)
  unfolding relay
  relay-RelaySeen idle buffer_size polls lt enough =
      relayed-RelaySeen polls
        (copy_bidirectional_with_stats ra wa rr wr sleep polls.relaying a r idle buffer_size
          (some user_id) false)
        (copy_bidirectional_with_stats_lem ra wa in_a out_a da rr wr in_r out_r dr sleep a r
          polls.relaying idle buffer_size (some user_id) false lt enough)
