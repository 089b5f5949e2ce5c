-- ===== src/Padding/Session.antt =====
-- A connection over padded transports at both ends: any history of calls, and what it carries.
use server_naive_rs.Common.{
  ℕ, ◌<◌, ◌≡◌, refl, sym, ap, ◌∙◌, List, [], ◌++◌, take, none, some, append_assoc, append-nil,
  subst,
}
use server_naive_rs.Stream.{
  AsyncWrite, IsWriter, AsyncRead, IsReader, IoResult, ok, Poll, pending, ready,
}
use server_naive_rs.Padding.State.{NaivePaddedTransport, fresh_reading, new}
use server_naive_rs.Padding.Protocol.{at_header, decode, decode-append, behind}
use server_naive_rs.Padding.Read.{poll_read}
use server_naive_rs.Padding.Read.Invariant.{IsReading, fresh-IsReading, decoder}
use server_naive_rs.Padding.Read.Refines.{to_come, PollReadGood, poll_read_refines}
use server_naive_rs.Padding.Write.{poll_write, poll_flush}
use server_naive_rs.Padding.Write.Drain.{fresh-IsWriting, rest_of}
use server_naive_rs.Padding.RoundTrip.{
  Carries, PollWriteGood, PollFlushGood, poll_write-Carries, poll_flush-Carries,
}

-- A history of writing calls from `first` that accepted the bytes of the list, none of which
-- failed. The clock's readings and the generator's states are any.
pub data Wrote {T : Type 0} (w : AsyncWrite T) (first : NaivePaddedTransport T)
    : List ℕ → NaivePaddedTransport T → Type 0 where
  start : Wrote w first [] first
  accepted :
      {sent : List ℕ} {this next : NaivePaddedTransport T} (nanos nanos' rng n : ℕ) (buf : List ℕ)
      → Wrote w first sent this
      → poll_write w nanos nanos' rng this buf ≡ some (ready (ok n), next)
      → Wrote w first (sent ++ take n buf) next
  waited :
      {sent : List ℕ} {this next : NaivePaddedTransport T} (nanos nanos' rng : ℕ) (buf : List ℕ)
      → Wrote w first sent this
      → poll_write w nanos nanos' rng this buf ≡ some (pending, next)
      → Wrote w first sent next
  flushed :
      {sent : List ℕ} {this next : NaivePaddedTransport T} {p : Poll (IoResult (Unit {0}))}
      → Wrote w first sent this
      → poll_flush w this ≡ some (p, next)
      → Wrote w first sent next

-- A history of reading calls that delivered the bytes of the list.
pub data Got {T : Type 0} (r : AsyncRead T) (first : NaivePaddedTransport T)
    : List ℕ → NaivePaddedTransport T → Type 0 where
  start : Got r first [] first
  filled :
      {got bytes : List ℕ} {this next : NaivePaddedTransport T} (room : ℕ)
      → Got r first got this
      → poll_read r this room ≡ some (ready (ok bytes), next)
      → Got r first (got ++ bytes) next
  waited :
      {got : List ℕ} {this next : NaivePaddedTransport T} (room : ℕ)
      → Got r first got this
      → poll_read r this room ≡ some (pending, next)
      → Got r first got next

module _ {T : Type 0} (w : AsyncWrite T) (outgoing : T → List ℕ) (h : IsWriter w outgoing) (t : T)
    (unused : outgoing t ≡ []) where
  fresh-Carries : Carries outgoing [] (new t)
  unfolding new decode behind
  fresh-Carries = (rw unused (refl, refl), fresh-IsWriting)

  pub Wrote-Carries :
      {sent : List ℕ} {this : NaivePaddedTransport T}
      → Wrote w (new t) sent this
      → Carries outgoing sent this
  Wrote-Carries start = fresh-Carries
  Wrote-Carries (accepted {sent = sent} {this = this} nanos nanos' rng n buf before e) =
      (subst (PollWriteGood outgoing sent this buf) e
        (poll_write-Carries w outgoing h nanos nanos' rng sent buf this (Wrote-Carries before))).0.0
  Wrote-Carries (waited {sent = sent} {this = this} nanos nanos' rng buf before e) =
      (subst (PollWriteGood outgoing sent this buf) e
        (poll_write-Carries w outgoing h nanos nanos' rng sent buf this (Wrote-Carries before))).0
  Wrote-Carries (flushed {sent = sent} {this = this} before e) =
      (subst (PollFlushGood outgoing sent this) e
        (poll_flush-Carries w outgoing h sent this (Wrote-Carries before))).0

module _ {T : Type 0} (r : AsyncRead T) (incoming : T → List ℕ) (h : IsReader r incoming)
    (t : T) where
  abbrev pub Delivered : List ℕ → NaivePaddedTransport T → Type 0
  Delivered got this =
      (to_come incoming t fresh_reading ≡ got ++ to_come incoming this.inner this.reading)
      × IsReading this.reading

  pub Got-Delivered :
      {got : List ℕ} {this : NaivePaddedTransport T} → Got r (new t) got this → Delivered got this
  unfolding new
  Got-Delivered start = (refl, fresh-IsReading)
  Got-Delivered (filled {got = got} {bytes = bytes} {this = this} {next = next} room before e) =
      let ih = Got-Delivered before in
      let g : PollReadGood incoming this room (some (ready (ok bytes), next)) =
        subst (PollReadGood incoming this room) e (poll_read_refines r incoming h this room ih.1) in
      (ih.0 ∙ ap (◌++◌ got) g.0.0 ∙ sym (append_assoc got bytes _), g.1)
  Got-Delivered (waited {got = got} {this = this} {next = next} room before e) =
      let ih = Got-Delivered before in
      let g : PollReadGood incoming this room (some (pending, next)) =
        subst (PollReadGood incoming this room) e (poll_read_refines r incoming h this room ih.1) in
      (ih.0 ∙ ap (◌++◌ got) (sym g.0), g.1)

decoder_fresh : decoder fresh_reading ≡ at_header 0
unfolding decoder at_header
decoder_fresh = refl

module _ {T U : Type 0} (w : AsyncWrite T) (outgoing : T → List ℕ) (hw : IsWriter w outgoing)
    (r : AsyncRead U) (incoming : U → List ℕ) (hr : IsReader r incoming) (t : T) (u : U)
    (unused : outgoing t ≡ []) where
  -- For two fresh transports, where the reader's stream brings what the writer's has been given,
  -- whatever histories of calls the two have: the bytes delivered are a first part of the bytes
  -- accepted.
  pub received_prefix :
      {sent got : List ℕ} {this : NaivePaddedTransport T} {that : NaivePaddedTransport U}
      → Wrote w (new t) sent this
      → incoming u ≡ outgoing this.inner
      → Got r (new u) got that
      → (tail : List ℕ) × (sent ≡ got ++ tail)
  received_prefix {sent} {got} {this} {that} sends link gets =
      (to_come incoming that.inner that.reading ++ late, whole)
    where
      rest : List ℕ
      rest = rest_of this.writing.write_pending this.writing.write_pending_off

      late : List ℕ
      late = decode (behind (at_header 0) (outgoing this.inner)) rest

      wire :
          decode (at_header 0) (outgoing this.inner)
          ≡ got ++ to_come incoming that.inner that.reading
      wire = rw (decoder_fresh, link) at (Got-Delivered r incoming hr u gets).0

      whole : sent ≡ got ++ (to_come incoming that.inner that.reading ++ late)
      whole =
          sym (Wrote-Carries w outgoing hw t unused sends).0.0
          ∙ decode-append (at_header 0) (outgoing this.inner) rest
          ∙ ap (λ d. d ++ late) wire
          ∙ append_assoc got _ late

  -- For two fresh transports, where the reader's stream brings what the writer's has been given:
  -- if the writer has nothing pending and the reader has met the end of the stream, by a read with
  -- room that filled nothing, the bytes delivered are the bytes accepted.
  pub received_all :
      {sent got : List ℕ} {this : NaivePaddedTransport T} {that last : NaivePaddedTransport U}
      (room : ℕ)
      → Wrote w (new t) sent this
      → this.writing.write_pending ≡ none
      → incoming u ≡ outgoing this.inner
      → Got r (new u) got that
      → 0 < room
      → poll_read r that room ≡ some (ready (ok []), last)
      → got ≡ sent
  received_all {sent} {got} {this} {that} {last} room sends idle link gets some_room e =
      sym (append-nil got)
      ∙ ap (◌++◌ got) (sym dry)
      ∙ sym (rw (decoder_fresh, link) at (Got-Delivered r incoming hr u gets).0)
      ∙ (rw (idle, append-nil) at (Wrote-Carries w outgoing hw t unused sends).0.0)
    where
      dry : to_come incoming that.inner that.reading ≡ []
      dry =
          (subst (PollReadGood incoming that room) e (
              poll_read_refines r incoming hr that room (Got-Delivered r incoming hr u gets).1)).0.2
            refl some_room
