-- ===== src/Padding/Write.antt =====
-- `AsyncWrite for NaivePaddedTransport` (src/transport/padding.rs): `poll_write`, `poll_flush`
-- and `poll_shutdown` over any inner stream with those operations.
pub mod Drain
pub mod Framing
use mathlib.Core.Option
use server_naive_rs.Common.{
  ℕ, zero, suc, ◌+◌, ◌-◌, ◌*◌, ◌/◌, ◌%◌, ◌≤◌, ◌<◌, ◌≡◌, arith, min, List, [], ◌∷◌, ◌++◌, ltb, leb,
  if◌then◌else◌, length, take, drop, Option, none, some,
}
use server_naive_rs.Stream.{
  AsyncWrite, IoError, write_zero, IoResult, ok, err, Poll, pending, ready,
}
use server_naive_rs.Padding.State.{
  WriteState, NaivePaddedTransport, padding_frames, max_padded_payload,
}
use server_naive_rs.Padding.Random.{gen_random_bytes, random_u8}

-- How the loop ends that drains `write_pending`.
pub data Drained : Type 0 where
  cleared blocked : Drained
  failed : IoError → Drained

-- `n` bytes of the pending frame have been written.
unfoldable pub advance : WriteState → List ℕ → ℕ → WriteState
advance ws frame n =
    if leb (length frame) (ws.write_pending_off + n)
    then record ws { write_pending = none; write_pending_off = 0 }
    else record ws { write_pending_off = ws.write_pending_off + n }

unfoldable pub drain_polled :
    {T : Type 0}
    → (T → WriteState → Option (Drained × T × WriteState))
    → WriteState
    → List ℕ
    → Poll (IoResult ℕ) × T
    → Option (Drained × T × WriteState)
drain_polled again ws frame (pending, t) = some (blocked, t, ws)
drain_polled again ws frame (ready (err e), t) = some (failed e, t, ws)
drain_polled again ws frame (ready (ok zero), t) = some (failed write_zero, t, ws)
drain_polled again ws frame (ready (ok (suc n)), t) = again t (advance ws frame (suc n))

-- A frame goes out with a byte to a round at least.
unfoldable pub drain_fuel : WriteState → ℕ
drain_fuel ws = elim ws.write_pending [ none ↦ 0 | some frame ↦ length frame ]

-- [u16 data_len][u8 pad_size][data][padding].
unfoldable pub build_frame : List ℕ → ℕ → List ℕ → List ℕ
build_frame chunk pad_size padding =
    let data_len = length chunk % 65536 in
    (data_len / 256) ∷ (data_len % 256) ∷ (pad_size % 256) ∷ (chunk ++ padding)

-- The frame just queued, behind the attempt to write it at once.
unfoldable pub first_polled :
    {T : Type 0}
    → WriteState
    → List ℕ
    → ℕ
    → Poll (IoResult ℕ) × T
    → Poll (IoResult ℕ) × T × WriteState
first_polled ws frame data_len (ready (ok (suc n)), t) =
    (ready (ok data_len), t, advance ws frame (suc n))
first_polled ws frame data_len (ready (ok zero), t) = (ready (ok data_len), t, ws)
first_polled ws frame data_len (ready (err e), t) = (ready (err e), t, ws)
first_polled ws frame data_len (pending, t) = (ready (ok data_len), t, ws)

unfoldable pub sent_raw :
    {T : Type 0} → WriteState → Poll (IoResult ℕ) × T → Poll (IoResult ℕ) × T × WriteState
sent_raw ws (p, t) = (p, t, ws)

module _ {T : Type 0} (w : AsyncWrite T) where
  -- `while self.write_pending.is_some()`; `none` means that the fuel ran out.
  unfoldable pub drain : ℕ → T → WriteState → Option (Drained × T × WriteState)
  drain zero t ws = elim ws.write_pending [ none ↦ some (cleared, t, ws) | some frame ↦ none ]
  drain (suc fuel) t ws = elim ws.write_pending [
    | none ↦ some (cleared, t, ws)
    | some frame ↦
        drain_polled (drain fuel) ws frame (w.poll_write t (drop ws.write_pending_off frame))
  ]

  -- `poll_write` behind the loop. The generator's state is `rng`; its two calls read the clock
  -- at `nanos` and `nanos'`.
  unfoldable pub write_frame :
      ℕ → ℕ → ℕ → T → WriteState → List ℕ → Poll (IoResult ℕ) × T × WriteState
  write_frame nanos nanos' rng t ws buf =
      let data_len = min (length buf) max_padded_payload in
      let (pad_size, rng') = random_u8 nanos rng in
      let frame =
        build_frame (take data_len buf) pad_size (gen_random_bytes nanos' rng' pad_size).0 in
      first_polled
        (record {
          write_frames_done = ws.write_frames_done + 1;
          write_pending = some frame;
          write_pending_off = 0;
        })
        frame data_len (w.poll_write t frame)

  unfoldable pub write_cleared :
      ℕ → ℕ → ℕ → T → WriteState → List ℕ → Poll (IoResult ℕ) × T × WriteState
  write_cleared nanos nanos' rng t ws buf =
      if leb padding_frames ws.write_frames_done
      then sent_raw ws (w.poll_write t buf)
      else write_frame nanos nanos' rng t ws buf

  unfoldable pub write_drained :
      ℕ
      → ℕ
      → ℕ
      → List ℕ
      → Option (Drained × T × WriteState)
      → Option (Poll (IoResult ℕ) × T × WriteState)
  write_drained nanos nanos' rng buf none = none
  write_drained nanos nanos' rng buf (some (blocked, t, ws)) = some (pending, t, ws)
  write_drained nanos nanos' rng buf (some (failed e, t, ws)) = some (ready (err e), t, ws)
  write_drained nanos nanos' rng buf (some (cleared, t, ws)) =
      some (write_cleared nanos nanos' rng t ws buf)

  unfoldable pub poll_write :
      ℕ
      → ℕ
      → ℕ
      → NaivePaddedTransport T
      → List ℕ
      → Option (Poll (IoResult ℕ) × NaivePaddedTransport T)
  poll_write nanos nanos' rng this buf =
      Option.map (λ (p, t, ws). (p, record this { inner = t; writing = ws }))
        (write_drained nanos nanos' rng buf
          (drain (drain_fuel this.writing) this.inner this.writing))

  unfoldable pub flush_drained :
      Option (Drained × T × WriteState) → Option (Poll (IoResult (Unit {0})) × T × WriteState)
  flush_drained none = none
  flush_drained (some (blocked, t, ws)) = some (pending, t, ws)
  flush_drained (some (failed e, t, ws)) = some (ready (err e), t, ws)
  flush_drained (some (cleared, t, ws)) = some ((w.poll_flush t).0, (w.poll_flush t).1, ws)

  unfoldable pub poll_flush :
      NaivePaddedTransport T → Option (Poll (IoResult (Unit {0})) × NaivePaddedTransport T)
  poll_flush this =
      Option.map (λ (p, t, ws). (p, record this { inner = t; writing = ws }))
        (flush_drained (drain (drain_fuel this.writing) this.inner this.writing))

  -- `ready!(poll_flush(cx))?`, then the inner shutdown.
  unfoldable pub shut_flushed :
      Option (Poll (IoResult (Unit {0})) × NaivePaddedTransport T)
      → Option (Poll (IoResult (Unit {0})) × NaivePaddedTransport T)
  shut_flushed none = none
  shut_flushed (some (pending, this)) = some (pending, this)
  shut_flushed (some (ready (err e), this)) = some (ready (err e), this)
  shut_flushed (some (ready (ok u), this)) =
      some ((w.poll_shutdown this.inner).0, record this { inner = (w.poll_shutdown this.inner).1 })

  unfoldable pub poll_shutdown :
      NaivePaddedTransport T → Option (Poll (IoResult (Unit {0})) × NaivePaddedTransport T)
  poll_shutdown this = shut_flushed (poll_flush this)
