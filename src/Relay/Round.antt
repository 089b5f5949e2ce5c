-- ===== src/Relay/Round.antt =====
-- A pass of the loop of one direction of the relay.
use server_naive_rs.Common.{
  ℕ, ◌+◌, ◌<◌, ◌≡◌, refl, sym, ap, ◌∙◌, subst, arith, Bool, true, false, List, [], ◌∷◌, ◌++◌,
  length, Option, none, some, if◌then◌else◌, length-append, length-drop,
}
use server_naive_rs.Stream.{
  AsyncRead, AsyncWrite, IsReader, IsWriter, ReadOutcome, IoResult, ok, err, Poll, pending, ready,
}
use server_naive_rs.Relay.{
  Copying, goes_on, returns, Pass, read_fresh, shut, write_loop, after_flush, flushed, written,
  copy_pass,
}
use server_naive_rs.Relay.Invariant.{unsent, Carried, Sent, IsKept, Kept}
use server_naive_rs.Relay.Pass.{Good-Sent, WriteGood, write_loop-WriteGood}

-- The passes that are left: one for each byte to come, one for the end.
abbrev pub budget : {R W : Type 0} → (R → List ℕ) → Copying R W → ℕ
budget incoming c = if c.st.read_done then 0 else length (incoming c.reader) + 1

-- A direction that has ended, with nothing left to send.
abbrev pub Ended : {R W : Type 0} → Copying R W → Type 0
Ended c = (c.st.shutdown_done ≡ true) × (c.st.read_done ≡ true) × (unsent c.st ≡ [])

module _ {R W : Type 0} (r : AsyncRead R) (incoming : R → List ℕ) (hr : IsReader r incoming)
    (w : AsyncWrite W) (outgoing : W → List ℕ) (hw : IsWriter w outgoing) (before all : List ℕ)
    (seen : R → List ℕ) (heard : W → List ℕ) (k : IsKept r w seen heard) where
  -- What a pass leaves. Going on, it has used some of the passes left.
  abbrev pub PassGood : Copying R W → Option (Pass R W) → Type 0
  PassGood c none = ⊥
  PassGood c (some (goes_on, c')) =
      Carried r incoming outgoing before all c'
      × Kept seen heard c c'
      × (budget incoming c' < budget incoming c)
  PassGood c (some (returns pending, c')) =
      Carried r incoming outgoing before all c' × Kept seen heard c c'
  PassGood c (some (returns (ready (ok u)), c')) =
      Carried r incoming outgoing before all c' × Kept seen heard c c' × Ended c'
  PassGood c (some (returns (ready (err e)), c')) =
      Sent outgoing before all c' × Kept seen heard c c'

  read_fresh-PassGood :
      (c : Copying R W)
      → Carried r incoming outgoing before all c
      → unsent c.st ≡ []
      → c.st.read_done ≡ false
      → (p : Poll (IoResult (List ℕ))) (t : R)
      → ReadOutcome (incoming c.reader) c.st.size p (incoming t)
      → p ≡ (r.poll_read c.reader c.st.size).0
      → seen t ≡ seen c.reader
      → PassGood c (some (read_fresh c (p, t)))
  unfolding read_fresh
  read_fresh-PassGood c g z d pending t o q e = (
    record {
      sent = g.sent;
      rest = g.rest;
      behind = g.behind;
      whole = g.whole;
      counted = g.counted;
      in_range = g.in_range;
      ahead = λ _. g.ahead d ∙ sym o;
      ended = g.ended;
      closed = g.closed;
      roomy = g.roomy;
    },
    (e, refl),
  )
  read_fresh-PassGood c g z d (ready (err x)) t o q e =
      (Good-Sent r incoming hr w outgoing hw before all seen heard k c c.writer refl t g, (e, refl))
  read_fresh-PassGood c g z d (ready (ok [])) t o q e = (
    record {
      sent = g.sent;
      rest = g.rest;
      behind = g.behind;
      whole = g.whole;
      counted = g.counted;
      in_range = g.in_range;
      ahead = λ x. cc;
      ended = λ _ _. g.ahead d ∙ o.2 refl g.roomy;
      closed = λ x. cc (g.closed x).0;
      roomy = g.roomy;
    },
    (e, refl),
    rw d (omega arith),
  )
  read_fresh-PassGood c g z d (ready (ok (b ∷ bytes))) t o q e = (
    record {
      sent = g.sent;
      rest = incoming t;
      behind = g.behind;
      whole = ap (◌++◌ g.sent) (sym (rw z (g.ahead d ∙ o.0))) ∙ g.whole;
      counted = g.counted;
      in_range = omega arith;
      ahead = λ _. refl;
      ended = λ _ x. cc;
      closed = λ x. cc (g.closed x).0;
      roomy = g.roomy;
    },
    (e, refl),
    rw d (omega (arith, ap length o.0, length-append (b ∷ bytes) (incoming t))),
  )

  shut-PassGood :
      (c : Copying R W)
      → Carried r incoming outgoing before all c
      → unsent c.st ≡ []
      → c.st.read_done ≡ true
      → (p : Poll (IoResult (Unit {0}))) (t : W) → outgoing t ≡ outgoing c.writer
      → heard t ≡ heard c.writer
      → PassGood c (some (shut c (p, t)))
  unfolding shut
  shut-PassGood c g z d pending t o h = (
    record {
      sent = g.sent;
      rest = g.rest;
      behind = o ∙ g.behind;
      whole = g.whole;
      counted = g.counted;
      in_range = g.in_range;
      ahead = g.ahead;
      ended = g.ended;
      closed = g.closed;
      roomy = g.roomy;
    },
    (refl, h),
  )
  shut-PassGood c g z d (ready result) t o h = (
    record {
      sent = g.sent;
      rest = g.rest;
      behind = o ∙ g.behind;
      whole = g.whole;
      counted = g.counted;
      in_range = g.in_range;
      ahead = g.ahead;
      ended = g.ended;
      closed = λ _. (d, z);
      roomy = g.roomy;
    },
    (refl, h),
    (refl, d, z),
  )

  after_flush-PassGood :
      (c : Copying R W)
      → Carried r incoming outgoing before all c
      → unsent c.st ≡ []
      → PassGood c (some (after_flush r w c))
  unfolding after_flush
  after_flush-PassGood c g z = go c.st.read_done c.st.suppress_shutdown refl
    where
      go :
          (d s : Bool)
          → c.st.read_done ≡ d
          → PassGood c (
              some (
                if d
                then (if s
                    then (
                      returns (ready (ok tt)),
                      record c { st = record c.st { shutdown_done = true } },
                    )
                    else shut c (w.poll_shutdown c.writer))
                else read_fresh c (r.poll_read c.reader c.st.size)))
      go true true d = (
        record {
          sent = g.sent;
          rest = g.rest;
          behind = g.behind;
          whole = g.whole;
          counted = g.counted;
          in_range = g.in_range;
          ahead = g.ahead;
          ended = g.ended;
          closed = λ _. (d, z);
          roomy = g.roomy;
        },
        (refl, refl),
        (refl, d, z),
      )
      go true false d =
          shut-PassGood c g z d (w.poll_shutdown c.writer).0 (w.poll_shutdown c.writer).1
            (hw.shuts c.writer) (k.shuts c.writer)
      go false s d =
          read_fresh-PassGood c g z d (r.poll_read c.reader c.st.size).0
            (r.poll_read c.reader c.st.size).1 (hr.reads c.reader c.st.size) refl
            (k.reads c.reader c.st.size)

  moved :
      (c : Copying R W) (t : W)
      → outgoing t ≡ outgoing c.writer
      → Carried r incoming outgoing before all c
      → Carried r incoming outgoing before all (record c { writer = t })
  moved c t o g = record {
    sent = g.sent;
    rest = g.rest;
    behind = o ∙ g.behind;
    whole = g.whole;
    counted = g.counted;
    in_range = g.in_range;
    ahead = g.ahead;
    ended = g.ended;
    closed = g.closed;
    roomy = g.roomy;
  }

  pub budget-bound :
      (c : Copying R W)
      → Carried r incoming outgoing before all c
      → budget incoming c < length all + 2
  budget-bound c g = go c.st.read_done refl
    where
      go :
          (d : Bool)
          → c.st.read_done ≡ d
          → (if d then 0 else length (incoming c.reader) + 1) < length all + 2
      go true d = omega arith
      go false d = omega (
        arith,
        ap length (g.ahead d),
        ap length g.whole,
        length-append g.sent (unsent c.st ++ g.rest),
        length-append (unsent c.st) g.rest,
      )

  PassGood-from :
      (c d : Copying R W) (o : Option (Pass R W))
      → d.reader ≡ c.reader
      → d.st.read_done ≡ c.st.read_done
      → seen d.reader ≡ seen c.reader
      → heard d.writer ≡ heard c.writer
      → PassGood d o
      → PassGood c o
  PassGood-from c d none q e s h g = g
  PassGood-from c d (some (goes_on, x)) q e s h g =
      (g.0, (g.1.0 ∙ s, g.1.1 ∙ h), subst (λ n. budget incoming x < n) same g.2)
    where
      same : budget incoming d ≡ budget incoming c
      same = rw (q, e) refl
  PassGood-from c d (some (returns pending, x)) q e s h g = (g.0, (g.1.0 ∙ s, g.1.1 ∙ h))
  PassGood-from c d (some (returns (ready (ok u)), x)) q e s h g =
      (g.0, (g.1.0 ∙ s, g.1.1 ∙ h), g.2)
  PassGood-from c d (some (returns (ready (err y)), x)) q e s h g = (g.0, (g.1.0 ∙ s, g.1.1 ∙ h))

  -- A flush that is pending does not stop the pass.
  flushed-PassGood :
      (c : Copying R W)
      → Carried r incoming outgoing before all c
      → unsent c.st ≡ []
      → (p : Poll (IoResult (Unit {0}))) (t : W) → outgoing t ≡ outgoing c.writer
      → heard t ≡ heard c.writer
      → PassGood c (some (flushed r w c (p, t)))
  unfolding flushed
  flushed-PassGood c g z (ready (err e)) t o h =
      (Good-Sent r incoming hr w outgoing hw before all seen heard k c t o c.reader g, (refl, h))
  flushed-PassGood c g z (ready (ok u)) t o h =
      PassGood-from c (record c { writer = t }) (some (after_flush r w (record c { writer = t })))
        refl refl refl h (after_flush-PassGood (record c { writer = t }) (moved c t o g) z)
  flushed-PassGood c g z pending t o h =
      PassGood-from c (record c { writer = t }) (some (after_flush r w (record c { writer = t })))
        refl refl refl h (after_flush-PassGood (record c { writer = t }) (moved c t o g) z)

  written-PassGood :
      (c : Copying R W) (o : Option (Pass R W))
      → WriteGood r incoming hr w outgoing hw before all seen heard k c o
      → PassGood c (written r w o)
  unfolding written
  written-PassGood c none g = g
  written-PassGood c (some (goes_on, x)) g =
      PassGood-from c x (some (flushed r w x (w.poll_flush x.writer))) g.3 g.4 g.1.0 g.1.1 (
        flushed-PassGood x g.0 g.2 (w.poll_flush x.writer).0 (w.poll_flush x.writer).1
          (hw.flushes x.writer) (k.flushes x.writer))
  written-PassGood c (some (returns pending, x)) g = g
  written-PassGood c (some (returns (ready (ok u)), x)) g = absurd g
  written-PassGood c (some (returns (ready (err y)), x)) g = g

  pub copy_pass-PassGood :
      (c : Copying R W) → Carried r incoming outgoing before all c → PassGood c (copy_pass r w c)
  unfolding copy_pass
  copy_pass-PassGood c g = written-PassGood c (write_loop r w (length c.st.filled) c) (
      write_loop-WriteGood r incoming hr w outgoing hw before all seen heard k (length c.st.filled)
        c (omega (arith, length-drop c.st.pos c.st.filled)) g)
