-- ===== src/H3Stream.antt =====
-- transport/quiche_stream.rs: byte streams over the frame channels of an HTTP/3 stream. The two
-- channels belong to tokio and tokio-quiche: `Receiver` and `Sender`, with their laws.
pub mod Reading
pub mod Writing
pub mod Session
mod Tests
use server_naive_rs.Common.{
  ℕ, zero, suc, ◌+◌, ◌≤◌, ◌<◌, ◌≡◌, Bool, true, false, ◌||◌, min, List, [], ◌∷◌, ◌++◌, length, take,
  drop, Option, none, some, All, if◌then◌else◌,
}
use server_naive_rs.Stream.{
  AsyncRead, AsyncWrite, IoError, broken_pipe, IoResult, ok, err, Poll, pending, ready, IsByte,
}

pub data InboundFrame : Type 0 where
  body : List ℕ → Bool → InboundFrame
  datagram : List ℕ → InboundFrame

-- `mpsc::Receiver::poll_recv`; `none` means that the channel is closed.
pub record Receiver (R : Type 0) : Type 0 where
  pub poll_recv : R → Poll (Option InboundFrame) × R

abbrev pub RecvOutcome : List InboundFrame → Poll (Option InboundFrame) → List InboundFrame → Type 0
RecvOutcome before pending after = after ≡ before
RecvOutcome before (ready none) after = (before ≡ []) × (after ≡ [])
RecvOutcome before (ready (some frame)) after = before ≡ frame ∷ after

abbrev pub HasBytes : InboundFrame → Type 0
HasBytes (body bytes fin) = All IsByte bytes
HasBytes (datagram bytes) = Unit {0}

-- `queue r` are the frames that the channel still brings.
pub record IsReceiver {R : Type 0} (c : Receiver R) (queue : R → List InboundFrame) : Type 0 where
  pub recvs : (r : R) → RecvOutcome (queue r) (c.poll_recv r).0 (queue (c.poll_recv r).1)
  pub bytes : (r : R) → All HasBytes (queue r)

pub record H3StreamReader (R : Type 0) : Type 0 where
  pub recv : R
  pub buf : Option (List ℕ)
  pub fin : Bool

unfoldable pub reader : {R : Type 0} → R → H3StreamReader R
reader recv = record { recv = recv; buf = none; fin = false }

-- `Some` of what is left of a buffer, `None` where it is empty.
unfoldable pub left_over : List ℕ → Option (List ℕ)
left_over [] = none
left_over (b ∷ bytes) = some (b ∷ bytes)

abbrev pub ReadPass : Type 0 → Type 0
ReadPass R = Option (Poll (IoResult (List ℕ)) × H3StreamReader R)

-- 1. Leftover bytes of the previous frame.
unfoldable pub served : {R : Type 0} → H3StreamReader R → List ℕ → ℕ → ReadPass R
unfolding left_over
served self bytes room =
    let len = min (length bytes) room in
    some (ready (ok (take len bytes)), record self { buf = left_over (drop len bytes) })

-- 3. The next frame of the channel; `again` is the next round of the loop.
unfoldable pub received :
    {R : Type 0}
    → (H3StreamReader R → ReadPass R)
    → H3StreamReader R
    → Poll (Option InboundFrame) × R
    → ReadPass R
unfolding left_over
received again self (pending, r) = some (pending, record self { recv = r })
received again self (ready none, r) = some (ready (ok []), record self { recv = r })
received again self (ready (some (datagram bytes)), r) = again (record self { recv = r })
received again self (ready (some (body bytes fin)), r) =
    again (record { recv = r; buf = left_over bytes; fin = fin || self.fin })

module _ {R : Type 0} (c : Receiver R) where
  -- 2. The end of the stream, once FIN has come and the buffer is empty.
  unfoldable pub past_buffer : (H3StreamReader R → ReadPass R) → H3StreamReader R → ReadPass R
  unfolding received
  past_buffer again self =
      if self.fin then some (ready (ok []), self) else received again self (c.poll_recv self.recv)

  unfoldable pub read_round :
      (H3StreamReader R → ReadPass R) → Option (List ℕ) → H3StreamReader R → ℕ → ReadPass R
  unfolding served past_buffer
  read_round again none self room = past_buffer again self
  read_round again (some []) self room = past_buffer again (record self { buf = none })
  read_round again (some (b ∷ bytes)) self room = served self (b ∷ bytes) room

  -- `loop`; `none` means that the fuel ran out.
  unfoldable pub poll_read : ℕ → H3StreamReader R → ℕ → ReadPass R
  unfolding read_round
  poll_read zero self room = none
  poll_read (suc fuel) self room = read_round (λ next. poll_read fuel next room) self.buf self room

-- `OutboundFrame::Body(bytes, fin)`.
pub data OutboundFrame : Type 0 where
  body : List ℕ → Bool → OutboundFrame

-- `PollSender`; an error has no content, and `send_item` says whether it succeeded.
pub record Sender (S : Type 0) : Type 0 where
  pub poll_reserve : S → Poll (IoResult (Unit {0})) × S
  pub send_item : S → OutboundFrame → Bool × S

-- `sent s` are the frames put into the channel.
pub record IsSender {S : Type 0} (c : Sender S) (sent : S → List OutboundFrame) : Type 0 where
  pub reserves : (s : S) → sent (c.poll_reserve s).1 ≡ sent s
  pub sends :
      (s : S) (frame : OutboundFrame)
      → sent (c.send_item s frame).1
        ≡ (if (c.send_item s frame).0 then sent s ++ frame ∷ [] else sent s)

unfoldable pub enqueued : {A S : Type 0} → A → Bool × S → Poll (IoResult A) × S
enqueued n (true, s) = (ready (ok n), s)
enqueued n (false, s) = (ready (err broken_pipe), s)

module _ {S : Type 0} (c : Sender S) where
  unfoldable pub write_reserved : List ℕ → Poll (IoResult (Unit {0})) × S → Poll (IoResult ℕ) × S
  unfolding enqueued
  write_reserved buf (pending, s) = (pending, s)
  write_reserved buf (ready (err e), s) = (ready (err broken_pipe), s)
  write_reserved buf (ready (ok u), s) = enqueued (length buf) (c.send_item s (body buf false))

  unfoldable pub shut_reserved : Poll (IoResult (Unit {0})) × S → Poll (IoResult (Unit {0})) × S
  shut_reserved (pending, s) = (pending, s)
  shut_reserved (ready (err e), s) = (ready (err broken_pipe), s)
  shut_reserved (ready (ok u), s) = (ready (ok tt), (c.send_item s (body [] true)).1)

  -- H3StreamWriter.
  unfoldable pub h3_writer : AsyncWrite S
  unfolding write_reserved shut_reserved
  h3_writer = record {
    poll_write = λ s buf. write_reserved buf (c.poll_reserve s);
    poll_flush = λ s. (ready (ok tt), s);
    poll_shutdown = λ s. shut_reserved (c.poll_reserve s);
  }
