-- ===== src/H3Stream/Writing.antt =====
-- The writer of an HTTP/3 stream is a byte stream as AsyncWrite documents it.
use server_naive_rs.Common.{
  ℕ, ◌≡◌, refl, sym, ap, ◌∙◌, subst, arith, Bool, true, false, List, [], ◌∷◌, ◌++◌, length,
  take_all, append_assoc, append-nil, if◌then◌else◌,
}
use server_naive_rs.Stream.{IsWriter, WriteOutcome, IoResult, ok, err, Poll, pending, ready}
use server_naive_rs.H3Stream.{
  OutboundFrame, body, Sender, IsSender, enqueued, write_reserved, shut_reserved, h3_writer,
}

-- The bytes of all frames.
abbrev pub bytes_of : List OutboundFrame → List ℕ
bytes_of [] = []
bytes_of (body bytes fin ∷ frames) = bytes ++ bytes_of frames

bytes_of-append : (xs ys : List OutboundFrame) → bytes_of (xs ++ ys) ≡ bytes_of xs ++ bytes_of ys
bytes_of-append [] ys = refl
bytes_of-append (body bytes fin ∷ xs) ys =
    ap (◌++◌ bytes) (bytes_of-append xs ys) ∙ sym (append_assoc bytes (bytes_of xs) (bytes_of ys))

module _ {S : Type 0} (c : Sender S) (sent : S → List OutboundFrame) (h : IsSender c sent) where
  abbrev outgoing : S → List ℕ
  outgoing s = bytes_of (sent s)

  -- A frame that is put behind the others, or refused.
  sent_item :
      (s : S) (bytes : List ℕ) (fin : Bool) (b : Bool) (s' : S)
      → sent s' ≡ (if b then sent s ++ body bytes fin ∷ [] else sent s)
      → outgoing s' ≡ (if b then outgoing s ++ bytes else outgoing s)
  sent_item s bytes fin true s' e =
      ap bytes_of e
      ∙ bytes_of-append (sent s) (body bytes fin ∷ [])
      ∙ ap (◌++◌ (outgoing s)) (append-nil bytes)
  sent_item s bytes fin false s' e = ap bytes_of e

  enqueued-WriteOutcome :
      (s : S) (buf : List ℕ) (b : Bool) (s' : S)
      → outgoing s' ≡ (if b then outgoing s ++ buf else outgoing s)
      → WriteOutcome
          (outgoing s)
          buf
          (enqueued (length buf) (b, s')).0
          (outgoing (enqueued (length buf) (b, s')).1)
  unfolding enqueued
  enqueued-WriteOutcome s buf true s' e =
      (rw (take_all (length buf) buf (omega arith)) e, omega arith)
  enqueued-WriteOutcome s buf false s' e = e

  reserved-WriteOutcome :
      (s : S) (buf : List ℕ) (p : Poll (IoResult (Unit {0}))) (s' : S)
      → sent s' ≡ sent s
      → WriteOutcome
          (outgoing s)
          buf
          (write_reserved c buf (p, s')).0
          (outgoing (write_reserved c buf (p, s')).1)
  unfolding write_reserved
  reserved-WriteOutcome s buf pending s' e = ap bytes_of e
  reserved-WriteOutcome s buf (ready (err x)) s' e = ap bytes_of e
  reserved-WriteOutcome s buf (ready (ok u)) s' e =
      subst
        (λ xs.
          WriteOutcome xs buf (enqueued (length buf) (c.send_item s' (body buf false))).0
            (outgoing (enqueued (length buf) (c.send_item s' (body buf false))).1))
        (ap bytes_of e)
        (enqueued-WriteOutcome s' buf (c.send_item s' (body buf false)).0
          (c.send_item s' (body buf false)).1
          (sent_item s' buf false _ _ (h.sends s' (body buf false))))

  reserved_shut :
      (s : S) (p : Poll (IoResult (Unit {0}))) (s' : S)
      → sent s' ≡ sent s
      → outgoing (shut_reserved c (p, s')).1 ≡ outgoing s
  unfolding shut_reserved
  reserved_shut s pending s' e = ap bytes_of e
  reserved_shut s (ready (err x)) s' e = ap bytes_of e
  reserved_shut s (ready (ok u)) s' e =
      go (c.send_item s' (body [] true)).0 (sent_item s' [] true _ _ (h.sends s' (body [] true)))
      ∙ ap bytes_of e
    where
      go :
          (b : Bool)
          → outgoing (c.send_item s' (body [] true)).1
            ≡ (if b then outgoing s' ++ [] else outgoing s')
          → outgoing (c.send_item s' (body [] true)).1 ≡ outgoing s'
      go true q = q ∙ append-nil (outgoing s')
      go false q = q

  -- The writer behaves as AsyncWrite documents, over the bytes of the frames it puts into the channel:
  -- each write that succeeds puts in the whole buffer, and none else changes the bytes.
  pub h3_writer-IsWriter : IsWriter (h3_writer c) (λ s. bytes_of (sent s))
  unfolding h3_writer
  h3_writer-IsWriter = record {
    writes = λ s buf.
        reserved-WriteOutcome s buf (c.poll_reserve s).0 (c.poll_reserve s).1 (h.reserves s);
    flushes = λ s. refl;
    shuts = λ s. reserved_shut s (c.poll_reserve s).0 (c.poll_reserve s).1 (h.reserves s);
  }
