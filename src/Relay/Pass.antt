-- ===== src/Relay/Pass.antt =====
-- The rounds of the write and the reads of a direction keep what it carries.
use server_naive_rs.Common.{
  ℕ, zero, suc, ◌+◌, ◌-◌, ◌%◌, ◌^◌, ◌≤◌, ◌<◌, ◌≡◌, refl, sym, ap, ◌∙◌, arith, Bool, true, false,
  not, ◌&&◌, ltb, List, [], ◌∷◌, ◌++◌, length, drop, take, Option, none, some, if◌then◌else◌,
  append_assoc, append-nil, take-append-drop, length-append, length-take, length-drop, drop-drop,
  drop-nil, drop-append_left, drop_all, Bool-cases, inl, inr,
}
use server_naive_rs.Stream.{
  AsyncRead, AsyncWrite, IsReader, IsWriter, ReadOutcome, WriteOutcome, IoResult, ok, err, Poll,
  pending, ready,
}
use server_naive_rs.Relay.{Copying, goes_on, returns, Pass, read_behind, blocked, wrote, write_loop}
use server_naive_rs.Relay.Invariant.{unsent, Carried, Sent, IsKept, Kept}

module _ {R W : Type 0} (r : AsyncRead R) (incoming : R → List ℕ) (hr : IsReader r incoming)
    (w : AsyncWrite W) (outgoing : W → List ℕ) (hw : IsWriter w outgoing) (before all : List ℕ)
    (seen : R → List ℕ) (heard : W → List ℕ) (k : IsKept r w seen heard) where
  abbrev pub Good : Copying R W → Type 0
  Good c = Carried r incoming outgoing before all c

  -- An error of a stream ends the direction with what was sent.
  pub Good-Sent :
      (c : Copying R W) (t : W)
      → outgoing t ≡ outgoing c.writer
      → (r' : R) → Good c
      → Sent outgoing before all (record c { writer = t; reader = r' })
  Good-Sent c t e r' g = record {
    sent = g.sent;
    rest = g.rest;
    behind = e ∙ g.behind;
    whole = g.whole;
    counted = g.counted;
  }

  advanced-Good :
      (c : Copying R W) (t : W) (i : ℕ)
      → outgoing t ≡ outgoing c.writer ++ take i (unsent c.st)
      → i ≤ length (unsent c.st)
      → Good c
      → Good (record c {
        writer = t;
        st = record c.st { pos = c.st.pos + i; amt = (c.st.amt + i) % 2 ^ 64 };
      })
  advanced-Good c t i e lt g = record {
    sent = g.sent ++ take i (unsent c.st);
    rest = g.rest;
    behind = e ∙ rw g.behind (append_assoc before g.sent (take i (unsent c.st)));
    whole = whole_after;
    counted = omega (
      arith,
      g.counted,
      length-append g.sent (take i (unsent c.st)),
      length-take i (unsent c.st),
    );
    in_range = omega (arith, g.in_range, length-drop c.st.pos c.st.filled);
    ahead = g.ahead;
    ended = g.ended;
    closed = λ x. (
      (g.closed x).0,
      sym (drop-drop c.st.pos i c.st.filled) ∙ ap (drop i) (g.closed x).1 ∙ drop-nil i,
    );
    roomy = g.roomy;
  }
    where
      whole_after :
          (g.sent ++ take i (unsent c.st)) ++ (drop (c.st.pos + i) c.st.filled ++ g.rest) ≡ all
      whole_after = rw (sym (drop-drop c.st.pos i c.st.filled)) (
          append_assoc g.sent (take i (unsent c.st)) (drop i (unsent c.st) ++ g.rest)
          ∙ ap (◌++◌ g.sent) (
              sym (append_assoc (take i (unsent c.st)) (drop i (unsent c.st)) g.rest)
              ∙ ap (λ xs. xs ++ g.rest) (take-append-drop i (unsent c.st)))
          ∙ g.whole)

  -- More is read behind what the buffer has.
  read_behind-Good :
      (c : Copying R W) (room : ℕ) (p : Poll (IoResult (List ℕ))) (t : R)
      → ReadOutcome (incoming c.reader) room p (incoming t)
      → 0 < room
      → c.st.read_done ≡ false
      → (p ≡ (r.poll_read c.reader room).0)
      → Good c
      → Good (record c { reader = t; st = read_behind c.st p })
  unfolding read_behind
  read_behind-Good c room pending t o lt d q g = record {
    sent = g.sent;
    rest = g.rest;
    behind = g.behind;
    whole = g.whole;
    counted = g.counted;
    in_range = g.in_range;
    ahead = λ _. g.ahead d ∙ sym o;
    ended = g.ended;
    closed = g.closed;
    roomy = g.roomy;
  }
  read_behind-Good c room (ready (err e)) t o lt d q g = record {
    sent = g.sent;
    rest = g.rest;
    behind = g.behind;
    whole = g.whole;
    counted = g.counted;
    in_range = g.in_range;
    ahead = λ x. cc;
    ended = λ reliable _. absurd (reliable c.reader room e (sym q));
    closed = λ x. cc (g.closed x).0;
    roomy = g.roomy;
  }
  read_behind-Good c room (ready (ok [])) t o lt d q g = record {
    sent = g.sent;
    rest = g.rest;
    behind = g.behind;
    whole = g.whole;
    counted = g.counted;
    in_range = g.in_range;
    ahead = λ x. cc;
    ended = λ _ _. g.ahead d ∙ o.2 refl lt;
    closed = λ x. cc (g.closed x).0;
    roomy = g.roomy;
  }
  read_behind-Good c room (ready (ok (b ∷ bytes))) t o lt d q g = record {
    sent = g.sent;
    rest = incoming t;
    behind = g.behind;
    whole =
        ap (◌++◌ g.sent) (
          rw (drop-append_left c.st.pos c.st.filled (b ∷ bytes) g.in_range) (
            append_assoc (unsent c.st) (b ∷ bytes) (incoming t)
            ∙ ap (◌++◌ (unsent c.st)) (sym (g.ahead d ∙ o.0))))
        ∙ g.whole;
    counted = g.counted;
    in_range = omega (arith, g.in_range, length-append c.st.filled (b ∷ bytes));
    ahead = λ _. refl;
    ended = λ _ x. cc;
    closed = λ x. cc (g.closed x).0;
    roomy = g.roomy;
  }

  blocked-Good :
      (c : Copying R W) → Good c → Good (blocked r w c) × Kept seen heard c (blocked r w c)
  unfolding blocked
  blocked-Good c g = go (not c.st.read_done && ltb (length c.st.filled) c.st.size) refl
    where
      room : ℕ
      room = c.st.size - length c.st.filled

      more : Copying R W
      more = record c {
        reader = (r.poll_read c.reader room).1;
        st = read_behind c.st (r.poll_read c.reader room).0;
      }

      go :
          (b : Bool)
          → (not c.st.read_done && ltb (length c.st.filled) c.st.size) ≡ b
          → Good (if b then more else c) × Kept seen heard c (if b then more else c)
      go true e = (
        read_behind-Good c room (r.poll_read c.reader room).0 (r.poll_read c.reader room).1
            (hr.reads c.reader room) (ground arith) (ground arith) refl g,
        (k.reads c.reader room, refl),
      )
      go false e = (g, (refl, refl))

  -- What the rounds of the write leave: an empty buffer, or the end of the poll.
  abbrev pub WriteGood : Copying R W → Option (Pass R W) → Type 0
  WriteGood c none = ⊥
  WriteGood c (some (goes_on, c')) =
      Good c'
      × Kept seen heard c c'
      × (unsent c'.st ≡ [])
      × (c'.reader ≡ c.reader)
      × (c'.st.read_done ≡ c.st.read_done)
  WriteGood c (some (returns pending, c')) = Good c' × Kept seen heard c c'
  WriteGood c (some (returns (ready (ok u)), c')) = ⊥
  WriteGood c (some (returns (ready (err e)), c')) =
      Sent outgoing before all c' × Kept seen heard c c'

  WriteGood-from :
      (c d : Copying R W) (o : Option (Pass R W))
      → seen d.reader ≡ seen c.reader
      → heard d.writer ≡ heard c.writer
      → d.reader ≡ c.reader
      → d.st.read_done ≡ c.st.read_done
      → WriteGood d o
      → WriteGood c o
  WriteGood-from c d none s h q e g = g
  WriteGood-from c d (some (goes_on, x)) s h q e g =
      (g.0, (g.1.0 ∙ s, g.1.1 ∙ h), g.2, g.3 ∙ q, g.4 ∙ e)
  WriteGood-from c d (some (returns pending, x)) s h q e g = (g.0, (g.1.0 ∙ s, g.1.1 ∙ h))
  WriteGood-from c d (some (returns (ready (ok u)), x)) s h q e g = g
  WriteGood-from c d (some (returns (ready (err y)), x)) s h q e g = (g.0, (g.1.0 ∙ s, g.1.1 ∙ h))

  wrote-WriteGood :
      (again : Copying R W → Option (Pass R W)) (c : Copying R W) (n : ℕ)
      → ((d : Copying R W) → length (unsent d.st) ≤ n → Good d → WriteGood d (again d))
      → length (unsent c.st) ≤ suc n
      → Good c
      → (p : Poll (IoResult ℕ)) (t : W)
      → WriteOutcome (outgoing c.writer) (unsent c.st) p (outgoing t)
      → heard t ≡ heard c.writer
      → WriteGood c (wrote r w again c (p, t))
  unfolding wrote
  wrote-WriteGood again c n ih lt g pending t o h =
      let b =
        blocked-Good (record c { writer = t })
          (record {
            sent = g.sent;
            rest = g.rest;
            behind = o ∙ g.behind;
            whole = g.whole;
            counted = g.counted;
            in_range = g.in_range;
            ahead = g.ahead;
            ended = g.ended;
            closed = g.closed;
            roomy = g.roomy;
          }) in
      (b.0, (b.1.0, b.1.1 ∙ h))
  wrote-WriteGood again c n ih lt g (ready (err e)) t o h = (Good-Sent c t o c.reader g, (refl, h))
  wrote-WriteGood again c n ih lt g (ready (ok zero)) t o h =
      (Good-Sent c t (o.0 ∙ append-nil (outgoing c.writer)) c.reader g, (refl, h))
  wrote-WriteGood again c n ih lt g (ready (ok (suc i))) t o h =
      WriteGood-from c after (again after) refl h refl refl (
        ih after
          (omega
            (arith, length-drop c.st.pos c.st.filled, length-drop (c.st.pos + suc i) c.st.filled))
          (advanced-Good c t (suc i) o.0 o.1 g))
    where
      after : Copying R W
      after = record c {
        writer = t;
        st = record c.st { pos = c.st.pos + suc i; amt = (c.st.amt + suc i) % 2 ^ 64 };
      }

  nothing_left : (c : Copying R W) → ltb c.st.pos (length c.st.filled) ≡ false → unsent c.st ≡ []
  nothing_left c e = drop_all c.st.pos c.st.filled (ground arith)

  pub write_loop-WriteGood :
      (fuel : ℕ) (c : Copying R W)
      → length (unsent c.st) ≤ fuel
      → Good c
      → WriteGood c (write_loop r w fuel c)
  unfolding write_loop
  write_loop-WriteGood zero c lt g = elim (Bool-cases (ltb c.st.pos (length c.st.filled))) [
    | inl more ↦ absurd (ground (arith, length-drop c.st.pos c.st.filled))
    | inr done ↦ rw done (g, (refl, refl), nothing_left c done, refl, refl)
  ]
  write_loop-WriteGood (suc fuel) c lt g = elim (Bool-cases (ltb c.st.pos (length c.st.filled))) [
    | inl more ↦ rw more (
        wrote-WriteGood (write_loop r w fuel) c fuel
          (λ d lt' g'. write_loop-WriteGood fuel d lt' g') lt g
          (w.poll_write c.writer (unsent c.st)).0 (w.poll_write c.writer (unsent c.st)).1
          (hw.writes c.writer (unsent c.st)) (k.writes c.writer (unsent c.st)))
    | inr done ↦ rw done (g, (refl, refl), nothing_left c done, refl, refl)
  ]
