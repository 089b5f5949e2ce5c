-- ===== src/Relay/Invariant.antt =====
-- What a direction of the relay carries.
use server_naive_rs.Common.{
  ℕ, ◌%◌, ◌^◌, ◌≤◌, ◌<◌, ◌≡◌, ◌≢◌, ap, sym, ◌∙◌, true, false, List, [], ◌++◌, length, drop,
}
use server_naive_rs.Stream.{AsyncRead, AsyncWrite, IoError, err, ready}
use server_naive_rs.Relay.{DirectionalBuffer, Copying}

-- A reader that never fails.
abbrev pub IsReliable : {R : Type 0} → AsyncRead R → Type 0
IsReliable {R} r = (t : R) (room : ℕ) (e : IoError) → (r.poll_read t room).0 ≢ ready (err e)

abbrev pub unsent : DirectionalBuffer → List ℕ
unsent st = drop st.pos st.filled

-- Of the bytes `all` that the reader brings, those sent stand behind what the writer had before, and
-- are counted; the others are in the buffer or come later.
pub record Carried {R W : Type 0} (r : AsyncRead R) (incoming : R → List ℕ) (outgoing : W → List ℕ)
    (before all : List ℕ) (c : Copying R W) : Type 0 where
  pub sent : List ℕ
  pub rest : List ℕ
  pub behind : outgoing c.writer ≡ before ++ sent
  pub whole : sent ++ (unsent c.st ++ rest) ≡ all
  pub counted : c.st.amt ≡ length sent % 2 ^ 64
  pub in_range : c.st.pos ≤ length c.st.filled
  pub ahead : c.st.read_done ≡ false → rest ≡ incoming c.reader
  pub ended : IsReliable r → c.st.read_done ≡ true → rest ≡ []
  pub closed : c.st.shutdown_done ≡ true → (c.st.read_done ≡ true) × (unsent c.st ≡ [])
  pub roomy : 0 < c.st.size

-- The state and the direction's own views of the streams are all that counts.
pub Carried-moved :
    {R W : Type 0} {r : AsyncRead R} {incoming : R → List ℕ} {outgoing : W → List ℕ}
    {before all : List ℕ} {c d : Copying R W}
    → Carried r incoming outgoing before all c
    → d.st ≡ c.st
    → incoming d.reader ≡ incoming c.reader
    → outgoing d.writer ≡ outgoing c.writer
    → Carried r incoming outgoing before all d
Carried-moved g e i o = record {
  sent = g.sent;
  rest = g.rest;
  behind = o ∙ g.behind;
  whole = rw e g.whole;
  counted = rw e g.counted;
  in_range = rw e g.in_range;
  ahead = λ x. g.ahead (ap (λ st. st.read_done) (sym e) ∙ x) ∙ sym i;
  ended = λ reliable x. g.ended reliable (ap (λ st. st.read_done) (sym e) ∙ x);
  closed = rw e g.closed;
  roomy = rw e g.roomy;
}

-- Behind an error of a stream the buffer still has what stands behind the bytes sent; what was not read
-- is no longer tied to the reader.
pub record Sent {R W : Type 0} (outgoing : W → List ℕ) (before all : List ℕ) (c : Copying R W)
    : Type 0 where
  pub sent : List ℕ
  pub rest : List ℕ
  pub behind : outgoing c.writer ≡ before ++ sent
  pub whole : sent ++ (unsent c.st ++ rest) ≡ all
  pub counted : c.st.amt ≡ length sent % 2 ^ 64

-- Views of the two streams that this direction leaves alone: those of the other direction.
pub record IsKept {R W : Type 0} (r : AsyncRead R) (w : AsyncWrite W) (seen : R → List ℕ)
    (heard : W → List ℕ) : Type 0 where
  pub reads : (t : R) (room : ℕ) → seen (r.poll_read t room).1 ≡ seen t
  pub writes : (t : W) (buf : List ℕ) → heard (w.poll_write t buf).1 ≡ heard t
  pub flushes : (t : W) → heard (w.poll_flush t).1 ≡ heard t
  pub shuts : (t : W) → heard (w.poll_shutdown t).1 ≡ heard t

abbrev pub Kept : {R W : Type 0} → (R → List ℕ) → (W → List ℕ) → Copying R W → Copying R W → Type 0
Kept seen heard c c' = (seen c'.reader ≡ seen c.reader) × (heard c'.writer ≡ heard c.writer)
