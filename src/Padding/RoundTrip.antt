-- ===== src/Padding/RoundTrip.antt =====
-- Both halves of the padded transport together: what one writes the other reads.
use mathlib.Core.Option
use server_naive_rs.Common.{ℕ, ◌≡◌, refl, List, Option, none, some, inl}
use server_naive_rs.Stream.{AsyncWrite, IsWriter, IoResult, ok, err, Poll, pending, ready}
use server_naive_rs.Padding.State.{WriteState, NaivePaddedTransport}
use server_naive_rs.Padding.Write.{
  Drained, cleared, blocked, failed, write_drained, poll_write, drain, drain_fuel, flush_drained,
  poll_flush, shut_flushed, poll_shutdown,
}
use server_naive_rs.Padding.Write.Drain.{owed, DrainGood, drain_all-DrainGood}
use server_naive_rs.Padding.Sync.{InSync, WriteGood, write_cleared-WriteGood}

-- The writing half of a transport, behind which its peer has read `payload`.
abbrev pub Carries : {T : Type 0} → (T → List ℕ) → List ℕ → NaivePaddedTransport T → Type 0
Carries outgoing payload this = InSync outgoing payload this.inner this.writing

-- What `poll_write` leaves: it returned, the accepted bytes joined the payload, and the reading
-- half is as it was.
abbrev pub PollWriteGood :
    {T : Type 0}
    → (T → List ℕ)
    → List ℕ
    → NaivePaddedTransport T
    → List ℕ
    → Option (Poll (IoResult ℕ) × NaivePaddedTransport T)
    → Type 0
PollWriteGood outgoing payload this buf none = ⊥
PollWriteGood outgoing payload this buf (some (p, next)) =
    WriteGood outgoing payload buf p next.inner next.writing × (next.reading ≡ this.reading)

module _ {T : Type 0} (w : AsyncWrite T) (outgoing : T → List ℕ) (h : IsWriter w outgoing) where
  drained-InSync :
      (payload : List ℕ) (t : T) (ws : WriteState) (d : Drained) (t' : T) (ws' : WriteState)
      → InSync outgoing payload t ws
      → DrainGood outgoing (owed outgoing t ws) ws.write_frames_done (some (d, t', ws'))
      → InSync outgoing payload t' ws'
  drained-InSync payload t ws d t' ws' s g = (rw (g.0, g.2) s.0, g.1)

  -- `poll_write` keeps the stream of the peer in step with the payload. It always returns, and the
  -- reading half is as it was. Where it accepts n bytes, the payload grows by the first n bytes of
  -- the buffer, n being at most its length; where it is pending, by none; where it fails, the frame
  -- may or may not have been queued.
  pub poll_write-Carries :
      (nanos nanos' rng : ℕ) (payload buf : List ℕ) (this : NaivePaddedTransport T)
      → Carries outgoing payload this
      → PollWriteGood outgoing payload this buf (poll_write w nanos nanos' rng this buf)
  unfolding poll_write write_drained
  poll_write-Carries nanos nanos' rng payload buf this s =
      go (drain w (drain_fuel this.writing) this.inner this.writing)
        (drain_all-DrainGood w outgoing h this.inner this.writing s.1)
    where
      go :
          (o : Option (Drained × T × WriteState))
          → DrainGood outgoing
              (owed outgoing this.inner this.writing)
              this.writing.write_frames_done
              o
          → PollWriteGood outgoing payload this buf (
              Option.map
                (λ (p, t, ws). (p, record this { inner = t; writing = ws }))
                (write_drained w nanos nanos' rng buf o))
      go none g = g
      go (some (blocked, t, ws)) g =
          (drained-InSync payload this.inner this.writing blocked t ws s g, refl)
      go (some (failed e, t, ws)) g =
          (inl (drained-InSync payload this.inner this.writing (failed e) t ws s g), refl)
      go (some (cleared, t, ws)) g = (
        write_cleared-WriteGood w outgoing h nanos nanos' rng payload buf t ws (g.3 refl)
            (drained-InSync payload this.inner this.writing cleared t ws s g),
        refl,
      )

-- What `poll_flush` and `poll_shutdown` leave: they returned, the payload is the same, and where
-- they succeed nothing of it is pending.
abbrev pub PollFlushGood :
    {T : Type 0}
    → (T → List ℕ)
    → List ℕ
    → NaivePaddedTransport T
    → Option (Poll (IoResult (Unit {0})) × NaivePaddedTransport T)
    → Type 0
PollFlushGood outgoing payload this none = ⊥
PollFlushGood outgoing payload this (some (p, next)) =
    Carries outgoing payload next
    × (next.reading ≡ this.reading)
    × (p ≡ ready (ok tt) → next.writing.write_pending ≡ none)

module _ {T : Type 0} (w : AsyncWrite T) (outgoing : T → List ℕ) (h : IsWriter w outgoing) where
  pub poll_flush-Carries :
      (payload : List ℕ) (this : NaivePaddedTransport T)
      → Carries outgoing payload this
      → PollFlushGood outgoing payload this (poll_flush w this)
  unfolding poll_flush flush_drained
  poll_flush-Carries payload this s =
      go (drain w (drain_fuel this.writing) this.inner this.writing)
        (drain_all-DrainGood w outgoing h this.inner this.writing s.1)
    where
      go :
          (o : Option (Drained × T × WriteState))
          → DrainGood outgoing
              (owed outgoing this.inner this.writing)
              this.writing.write_frames_done
              o
          → PollFlushGood outgoing payload this (
              Option.map
                (λ (p, t, ws). (p, record this { inner = t; writing = ws }))
                (flush_drained w o))
      go none g = g
      go (some (blocked, t, ws)) g = (
        drained-InSync w outgoing h payload this.inner this.writing blocked t ws s g,
        refl,
        λ e. cc,
      )
      go (some (failed e, t, ws)) g = (
        drained-InSync w outgoing h payload this.inner this.writing (failed e) t ws s g,
        refl,
        λ e. cc,
      )
      go (some (cleared, t, ws)) g = (
        rw (h.flushes t)
            (drained-InSync w outgoing h payload this.inner this.writing cleared t ws s g),
        refl,
        λ _. g.3 refl,
      )

  -- `poll_shutdown` always returns, changes neither the payload nor the reading half, and where it
  -- succeeds leaves no byte of a frame pending.
  pub poll_shutdown-Carries :
      (payload : List ℕ) (this : NaivePaddedTransport T)
      → Carries outgoing payload this
      → PollFlushGood outgoing payload this (poll_shutdown w this)
  unfolding poll_shutdown shut_flushed
  poll_shutdown-Carries payload this s = go (poll_flush w this) (poll_flush-Carries payload this s)
    where
      go :
          (o : Option (Poll (IoResult (Unit {0})) × NaivePaddedTransport T))
          → PollFlushGood outgoing payload this o
          → PollFlushGood outgoing payload this (shut_flushed w o)
      go none g = g
      go (some (pending, next)) g = g
      go (some (ready (err e), next)) g = g
      go (some (ready (ok tt), next)) g = (rw (h.shuts next.inner) g.0, g.1, λ _. g.2 refl)
