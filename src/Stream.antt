-- ===== src/Stream.antt =====
-- Polled byte streams, tokio's AsyncRead and AsyncWrite: what a poll returns, the operations, and
-- the documented behaviour that their users rely on. The streams below the code of src/ (a QUIC or
-- TLS stream, a duplex pipe, a TCP socket) are parameters of the modules that use them.
pub mod Memory
use server_naive_rs.Common.{
  ℕ, ◌≤◌, ◌<◌, ◌≡◌, refl, ◌⊎◌, inl, inr, List, [], ◌++◌, length, take, All,
}

-- std::io::Error, by its ErrorKind where src/ makes one. `external` is an error of a stream.
pub data IoError : Type 0 where
  write_zero broken_pipe not_found timed_out invalid_input unexpected_eof other : IoError
  external : ℕ → IoError

pub data IoResult {ℓ} (A : Type ℓ) : Type ℓ where
  ok : A → IoResult A
  err : IoError → IoResult A

pub data Poll {ℓ} (A : Type ℓ) : Type ℓ where
  pending : Poll A
  ready : A → Poll A

abbrev pub IsByte : ℕ → Type 0
IsByte b = b < 256

-- `poll_read t n` is a read into a buffer with `n` bytes of room; it returns the bytes filled in.
pub record AsyncRead (T : Type 0) : Type 0 where
  pub poll_read : T → ℕ → Poll (IoResult (List ℕ)) × T

pub record AsyncWrite (T : Type 0) : Type 0 where
  pub poll_write : T → List ℕ → Poll (IoResult ℕ) × T
  pub poll_flush : T → Poll (IoResult (Unit {0})) × T
  pub poll_shutdown : T → Poll (IoResult (Unit {0})) × T

-- What a read with `room` may do to the bytes that are still to come. A read that fills nothing
-- into a buffer with room is the end of the stream. Nothing is said after an error.
abbrev pub ReadOutcome : List ℕ → ℕ → Poll (IoResult (List ℕ)) → List ℕ → Type 0
ReadOutcome before room pending after = after ≡ before
ReadOutcome before room (ready (err e)) after = Unit {0}
ReadOutcome before room (ready (ok filled)) after =
    (before ≡ filled ++ after) × (length filled ≤ room) × (filled ≡ [] → 0 < room → before ≡ [])

-- `incoming t` is what the peer has sent, or will send, and `t` has not yet delivered.
pub record IsReader {T : Type 0} (r : AsyncRead T) (incoming : T → List ℕ) : Type 0 where
  pub reads :
      (t : T) (room : ℕ)
      → ReadOutcome (incoming t) room (r.poll_read t room).0 (incoming (r.poll_read t room).1)
  pub bytes : (t : T) → All IsByte (incoming t)

-- A write takes a first part of the buffer, and takes nothing where it is pending or fails.
abbrev pub WriteOutcome : List ℕ → List ℕ → Poll (IoResult ℕ) → List ℕ → Type 0
WriteOutcome before buf pending after = after ≡ before
WriteOutcome before buf (ready (err e)) after = after ≡ before
WriteOutcome before buf (ready (ok n)) after = (after ≡ before ++ take n buf) × (n ≤ length buf)

-- `outgoing t` is all that has been written to `t` so far.
pub record IsWriter {T : Type 0} (w : AsyncWrite T) (outgoing : T → List ℕ) : Type 0 where
  pub writes :
      (t : T) (buf : List ℕ)
      → WriteOutcome (outgoing t) buf (w.poll_write t buf).0 (outgoing (w.poll_write t buf).1)
  pub flushes : (t : T) → outgoing (w.poll_flush t).1 ≡ outgoing t
  pub shuts : (t : T) → outgoing (w.poll_shutdown t).1 ≡ outgoing t

pub IoResult-cases :
    {A : Type 0} (r : IoResult A) → ((a : A) × (r ≡ ok a)) ⊎ ((e : IoError) × (r ≡ err e))
IoResult-cases (ok a) = inl (a, refl)
IoResult-cases (err e) = inr (e, refl)
