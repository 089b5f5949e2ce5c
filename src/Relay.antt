-- ===== src/Relay.antt =====
-- core/relay.rs: one direction of the relay. `buf[..cap]` is the list `filled`; what stands behind
-- `cap` is never read.
pub mod Invariant
pub mod Pass
pub mod Round
pub mod Copy
pub mod Bidirectional
pub mod Duplex
pub mod Idle
pub mod Outcome
mod Tests
use server_naive_rs.Common.{
  ℕ, zero, suc, ◌+◌, ◌-◌, ◌%◌, ◌^◌, Bool, true, false, not, ◌&&◌, ltb, List, [], ◌∷◌, ◌++◌, length,
  drop, Option, none, some, if◌then◌else◌,
}
use server_naive_rs.Stream.{
  AsyncRead, AsyncWrite, IoError, write_zero, IoResult, ok, err, Poll, pending, ready,
}

pub record DirectionalBuffer : Type 0 where
  pub size : ℕ
  pub filled : List ℕ
  pub pos : ℕ
  pub amt : ℕ
  pub read_done : Bool
  pub shutdown_done : Bool
  pub suppress_shutdown : Bool

unfoldable pub new : ℕ → Bool → DirectionalBuffer
new buf_size suppress_shutdown = record {
  size = buf_size;
  filled = [];
  pos = 0;
  amt = 0;
  read_done = false;
  shutdown_done = false;
  suppress_shutdown = suppress_shutdown;
}

-- A direction with its two streams.
pub record Copying (R W : Type 0) : Type 0 where
  pub st : DirectionalBuffer
  pub reader : R
  pub writer : W

pub data Flow : Type 0 where
  goes_on : Flow
  returns : Poll (IoResult (Unit {0})) → Flow

abbrev pub Pass : Type 0 → Type 0 → Type 0
Pass R W = Flow × Copying R W

-- While the writer is pending, more is read behind what there is. A failed read ends the reading.
unfoldable pub read_behind : DirectionalBuffer → Poll (IoResult (List ℕ)) → DirectionalBuffer
read_behind st pending = st
read_behind st (ready (err e)) = record st { read_done = true }
read_behind st (ready (ok [])) = record st { read_done = true }
read_behind st (ready (ok (b ∷ bytes))) = record st { filled = st.filled ++ (b ∷ bytes) }

-- The read into the empty buffer.
unfoldable pub read_fresh : {R W : Type 0} → Copying R W → Poll (IoResult (List ℕ)) × R → Pass R W
read_fresh c (pending, r) = (returns pending, record c { reader = r })
read_fresh c (ready (err e), r) = (returns (ready (err e)), record c { reader = r })
read_fresh c (ready (ok []), r) =
    (goes_on, record c { reader = r; st = record c.st { read_done = true } })
read_fresh c (ready (ok (b ∷ bytes)), r) =
    (goes_on, record c { reader = r; st = record c.st { pos = 0; filled = b ∷ bytes } })

-- Behind the shutdown of the writer, whose error is ignored.
unfoldable pub shut : {R W : Type 0} → Copying R W → Poll (IoResult (Unit {0})) × W → Pass R W
shut c (pending, w) = (returns pending, record c { writer = w })
shut c (ready result, w) =
    (returns (ready (ok tt)), record c { writer = w; st = record c.st { shutdown_done = true } })

module _ {R W : Type 0} (r : AsyncRead R) (w : AsyncWrite W) where
  unfoldable pub blocked : Copying R W → Copying R W
  unfolding read_behind
  blocked c =
      if not c.st.read_done && ltb (length c.st.filled) c.st.size
      then record c {
        reader = (r.poll_read c.reader (c.st.size - length c.st.filled)).1;
        st = read_behind c.st (r.poll_read c.reader (c.st.size - length c.st.filled)).0;
      }
      else c

  -- What a write of the rest of the buffer answered; `again` is the next round.
  unfoldable pub wrote :
      (Copying R W → Option (Pass R W)) → Copying R W → Poll (IoResult ℕ) × W → Option (Pass R W)
  unfolding blocked
  wrote again c (pending, t) = some (returns pending, blocked (record c { writer = t }))
  wrote again c (ready (err e), t) = some (returns (ready (err e)), record c { writer = t })
  wrote again c (ready (ok zero), t) =
      some (returns (ready (err write_zero)), record c { writer = t })
  wrote again c (ready (ok (suc i)), t) = again (record c {
    writer = t;
    st = record c.st { pos = c.st.pos + suc i; amt = (c.st.amt + suc i) % 2 ^ 64 };
  })

  -- `while self.pos < self.cap`; `none` means that the fuel ran out.
  unfoldable pub write_loop : ℕ → Copying R W → Option (Pass R W)
  unfolding wrote
  write_loop zero c = if ltb c.st.pos (length c.st.filled) then none else some (goes_on, c)
  write_loop (suc fuel) c =
      let rest = wrote (write_loop fuel) c (w.poll_write c.writer (drop c.st.pos c.st.filled)) in
      if ltb c.st.pos (length c.st.filled) then rest else some (goes_on, c)

  -- The end of the direction, or the next read.
  unfoldable pub after_flush : Copying R W → Pass R W
  unfolding shut read_fresh
  after_flush c =
      if c.st.read_done
      then (if c.st.suppress_shutdown
          then (returns (ready (ok tt)), record c { st = record c.st { shutdown_done = true } })
          else shut c (w.poll_shutdown c.writer))
      else read_fresh c (r.poll_read c.reader c.st.size)

  unfoldable pub flushed : Copying R W → Poll (IoResult (Unit {0})) × W → Pass R W
  unfolding after_flush
  flushed c (ready (err e), t) = (returns (ready (err e)), record c { writer = t })
  flushed c (ready (ok u), t) = after_flush (record c { writer = t })
  flushed c (pending, t) = after_flush (record c { writer = t })

  unfoldable pub written : Option (Pass R W) → Option (Pass R W)
  unfolding flushed
  written none = none
  written (some (returns p, c)) = some (returns p, c)
  written (some (goes_on, c)) = some (flushed c (w.poll_flush c.writer))

  -- One pass of `loop`: a round of the write for each byte of the buffer.
  unfoldable pub copy_pass : Copying R W → Option (Pass R W)
  unfolding written write_loop
  copy_pass c = written (write_loop (length c.st.filled) c)

  abbrev pub Copied : Type 0
  Copied = Option (Poll (IoResult (Unit {0})) × Copying R W)

  unfoldable pub copy_loop : ℕ → Copying R W → Copied
  unfolding copy_pass
  copy_loop zero c = none
  copy_loop (suc fuel) c = elim (copy_pass c) [
    | none ↦ none
    | some (returns p, c') ↦ some (p, c')
    | some (goes_on, c') ↦ copy_loop fuel c'
  ]

  unfoldable pub poll_copy : ℕ → Copying R W → Copied
  unfolding copy_loop
  poll_copy fuel c = if c.st.shutdown_done then some (ready (ok tt), c) else copy_loop fuel c
