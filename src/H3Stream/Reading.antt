-- ===== src/H3Stream/Reading.antt =====
-- The reader of an HTTP/3 stream is a byte stream as AsyncRead documents it.
use server_naive_rs.Common.{
  ℕ, zero, suc, ◌+◌, ◌<◌, ◌≡◌, refl, sym, ap, ◌∙◌, subst, append-nil, arith, Bool, true, false,
  ◌||◌, min, List, [], ◌∷◌, ◌++◌, length, take, drop, Option, none, some, All, All-append,
  All-append_right, if◌then◌else◌, take-append-drop, length-take, append_assoc,
}
use server_naive_rs.Stream.{
  AsyncRead, IsReader, ReadOutcome, IoResult, ok, Poll, pending, ready, IsByte,
}
use server_naive_rs.H3Stream.{
  InboundFrame, body, datagram, Receiver, RecvOutcome, HasBytes, IsReceiver, H3StreamReader,
  left_over, ReadPass, served, received, past_buffer, read_round, poll_read,
}

-- The bytes of the frames up to FIN.
abbrev pub bodies : List InboundFrame → List ℕ
bodies [] = []
bodies (body bytes true ∷ frames) = bytes
bodies (body bytes false ∷ frames) = bytes ++ bodies frames
bodies (datagram bytes ∷ frames) = bodies frames

abbrev pub buffered : Option (List ℕ) → List ℕ
buffered none = []
buffered (some bytes) = bytes

buffered-left_over : (bytes : List ℕ) → buffered (left_over bytes) ≡ bytes
unfolding left_over
buffered-left_over [] = refl
buffered-left_over (b ∷ bytes) = refl

module _ {R : Type 0} (queue : R → List InboundFrame) where
  -- What the reader has yet to deliver.
  abbrev pub to_come : H3StreamReader R → List ℕ
  to_come self = buffered self.buf ++ (if self.fin then [] else bodies (queue self.recv))

  -- What a poll leaves: it returned, as AsyncRead documents, and its buffer holds bytes.
  abbrev pub ReadGood : List ℕ → ℕ → ReadPass R → Type 0
  ReadGood before room none = ⊥
  ReadGood before room (some (p, next)) =
      ReadOutcome before room p (to_come next) × All IsByte (buffered next.buf)

  served-ReadGood :
      (self : H3StreamReader R) (b : ℕ) (bytes : List ℕ) (room : ℕ)
      → self.buf ≡ some (b ∷ bytes)
      → All IsByte (b ∷ bytes)
      → ReadGood (to_come self) room (served self (b ∷ bytes) room)
  unfolding served
  served-ReadGood self b bytes room e v =
      rw (e, buffered-left_over rest)
        (
          (
            ap (λ xs. xs ++ later) (sym (take-append-drop len (b ∷ bytes)))
                ∙ append_assoc (take len (b ∷ bytes)) rest later,
            omega (arith, length-take len (b ∷ bytes)),
            λ empty some_room. absurd (omega (arith, length-take len (b ∷ bytes), ap length empty)),
          ),
          All-append_right IsByte (take len (b ∷ bytes)) rest
              (rw (take-append-drop len (b ∷ bytes)) v),
        )
    where
      len : ℕ
      len = min (length (b ∷ bytes)) room

      rest : List ℕ
      rest = drop len (b ∷ bytes)

      later : List ℕ
      later = if self.fin then [] else bodies (queue self.recv)

module _ {R : Type 0} (c : Receiver R) (queue : R → List InboundFrame) (h : IsReceiver c queue)
    (again : H3StreamReader R → ReadPass R) (room : ℕ) where
  -- The next rounds are good where the channel brings fewer frames than `n`.
  abbrev AgainGood : ℕ → Type 0
  AgainGood n =
      (next : H3StreamReader R)
      → length (queue next.recv) < n
      → All IsByte (buffered next.buf)
      → ReadGood queue (to_come queue next) room (again next)

  received-ReadGood :
      (self : H3StreamReader R) (n : ℕ) (p : Poll (Option InboundFrame)) (r : R)
      → RecvOutcome (queue self.recv) p (queue r)
      → All HasBytes (queue self.recv)
      → length (queue self.recv) < suc n
      → AgainGood n
      → self.fin ≡ false
      → self.buf ≡ none
      → ReadGood queue (to_come queue self) room (received again self (p, r))
  unfolding received
  received-ReadGood self n pending r o v lt ih f e = rw (e, f, o) (refl, tt)
  received-ReadGood self n (ready none) r o v lt ih f e =
      rw (e, f, o.0, o.1) ((refl, omega arith, λ _ _. refl), tt)
  received-ReadGood self n (ready (some (datagram bytes))) r o v lt ih f e =
      subst (λ xs. ReadGood queue xs room (again (record self { recv = r }))) (rw (e, f, o) refl)
        (ih (record self { recv = r }) (omega (arith, ap length o)) (rw e tt))
  received-ReadGood self n (ready (some (body bytes fin))) r o v lt ih f e =
      subst (λ xs. ReadGood queue xs room (again next)) (whole fin o)
        (ih next (omega (arith, ap length o))
          (rw (buffered-left_over bytes) (subst (All HasBytes) o v).0))
    where
      next : H3StreamReader R
      next = record { recv = r; buf = left_over bytes; fin = fin || self.fin }

      whole :
          (b : Bool)
          → queue self.recv ≡ body bytes b ∷ queue r
          → to_come queue (record { recv = r; buf = left_over bytes; fin = b || self.fin })
            ≡ to_come queue self
      whole true q = rw (buffered-left_over bytes, e, f, q) (append-nil bytes)
      whole false q = rw (buffered-left_over bytes, e, f, q) refl

  past_buffer-ReadGood :
      (self : H3StreamReader R) (n : ℕ)
      → length (queue self.recv) < suc n
      → AgainGood n
      → self.buf ≡ none
      → ReadGood queue (to_come queue self) room (past_buffer c again self)
  unfolding past_buffer
  past_buffer-ReadGood self n lt ih e = go self.fin refl
    where
      go :
          (b : Bool)
          → self.fin ≡ b
          → ReadGood queue (to_come queue self) room (
              if b then some (ready (ok []), self) else received again self (c.poll_recv self.recv))
      go true done = ((refl, omega arith, λ _ _. rw (e, done)), rw e tt)
      go false open_yet =
          received-ReadGood self n (c.poll_recv self.recv).0 (c.poll_recv self.recv).1
            (h.recvs self.recv) (h.bytes self.recv) lt ih open_yet e

  read_round-ReadGood :
      (self : H3StreamReader R) (n : ℕ)
      → length (queue self.recv) < suc n
      → All IsByte (buffered self.buf)
      → AgainGood n
      → (o : Option (List ℕ)) → self.buf ≡ o
      → ReadGood queue (to_come queue self) room (read_round c again o self room)
  unfolding read_round
  read_round-ReadGood self n lt v ih none e = past_buffer-ReadGood self n lt ih e
  read_round-ReadGood self n lt v ih (some []) e =
      subst (λ xs. ReadGood queue xs room (past_buffer c again (record self { buf = none })))
        (rw e refl) (past_buffer-ReadGood (record self { buf = none }) n lt ih refl)
  read_round-ReadGood self n lt v ih (some (b ∷ bytes)) e =
      served-ReadGood queue self b bytes room e (subst (λ o. All IsByte (buffered o)) e v)

bodies-IsByte : (frames : List InboundFrame) → All HasBytes frames → All IsByte (bodies frames)
bodies-IsByte [] v = tt
bodies-IsByte (body bytes true ∷ frames) v = v.0
bodies-IsByte (body bytes false ∷ frames) v =
    All-append IsByte bytes (bodies frames) v.0 (bodies-IsByte frames v.1)
bodies-IsByte (datagram bytes ∷ frames) v = bodies-IsByte frames v.1

module _ {R : Type 0} (c : Receiver R) (queue : R → List InboundFrame)
    (h : IsReceiver c queue) where
  -- Over a channel of frames of bytes, and with a buffer of bytes, a poll returns, with a round for each
  -- frame of the channel and one. It delivers the next of the bytes up to FIN as AsyncRead documents,
  -- and its buffer holds bytes again.
  pub poll_read-ReadGood :
      (fuel : ℕ) (self : H3StreamReader R) (room : ℕ)
      → length (queue self.recv) < fuel
      → All IsByte (buffered self.buf)
      → ReadGood queue (to_come queue self) room (poll_read c fuel self room)
  unfolding poll_read
  poll_read-ReadGood zero self room lt v = absurd (omega arith)
  poll_read-ReadGood (suc fuel) self room lt v =
      read_round-ReadGood c queue h (λ next. poll_read c fuel next room) room self fuel lt v
        (λ next lt' v'. poll_read-ReadGood fuel next room lt' v') self.buf refl

  -- The reader with a buffer of bytes, as a stream.
  abbrev pub Reader : Type 0
  Reader = (self : H3StreamReader R) × All IsByte (buffered self.buf)

  abbrev outcome :
      (before : List ℕ) (room : ℕ) (o : ReadPass R)
      → ReadGood queue before room o
      → Poll (IoResult (List ℕ)) × Reader
  outcome before room none g = absurd g
  outcome before room (some (p, next)) g = (p, (next, g.1))

  -- Every poll has the rounds that it needs, so the stream is total.
  unfoldable pub h3_reader : AsyncRead Reader
  h3_reader = record {
    poll_read = λ (self, v) room.
        outcome (to_come queue self) room (poll_read c (length (queue self.recv) + 1) self room)
          (poll_read-ReadGood (length (queue self.recv) + 1) self room (omega arith) v);
  }

  to_come-IsByte :
      (self : H3StreamReader R) → All IsByte (buffered self.buf) → All IsByte (to_come queue self)
  to_come-IsByte self v = go self.fin
    where
      go :
          (b : Bool)
          → All IsByte (buffered self.buf ++ (if b then [] else bodies (queue self.recv)))
      go true = rw (append-nil (buffered self.buf)) v
      go false =
          All-append IsByte (buffered self.buf) (bodies (queue self.recv)) v
            (bodies-IsByte (queue self.recv) (h.bytes self.recv))

  outcome-ReadOutcome :
      (before : List ℕ) (room : ℕ) (o : ReadPass R) (g : ReadGood queue before room o)
      → ReadOutcome before room
          (outcome before room o g).0
          (to_come queue (outcome before room o g).1.0)
  outcome-ReadOutcome before room none g = absurd g
  outcome-ReadOutcome before room (some (p, next)) g = g.0

  -- The reader behaves as AsyncRead documents, over the bytes of the frames up to FIN.
  pub h3_reader-IsReader : IsReader h3_reader (λ t. to_come queue t.0)
  unfolding h3_reader
  h3_reader-IsReader = record {
    reads = λ (self, v) room.
        outcome-ReadOutcome (to_come queue self) room
          (poll_read c (length (queue self.recv) + 1) self room)
          (poll_read-ReadGood (length (queue self.recv) + 1) self room (omega arith) v);
    bytes = λ (self, v). to_come-IsByte self v;
  }
