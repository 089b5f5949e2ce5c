-- ===== src/Padding/Read/Refines.antt =====
-- `poll_read` delivers the decoder's data, whatever the inner stream does.
use server_naive_rs.Common.{
  ℕ, zero, suc, ◌-◌, ◌≤◌, ◌<◌, ◌≡◌, refl, sym, ap, ◌∙◌, arith, Option, none, some, min, List, [],
  ◌∷◌, ◌++◌, ltb, leb, ◌==◌, if◌then◌else◌, length, Bool-cases, inl, inr, ltb→lt, subst,
}
use mathlib.Core.Option
use server_naive_rs.Stream.{
  AsyncRead, IsReader, ReadOutcome, IoResult, ok, err, Poll, pending, ready,
}
use server_naive_rs.Padding.State.{ReadState, NaivePaddedTransport, padding_frames}
use server_naive_rs.Padding.Protocol.{
  Decoder, raw, at_body, at_skip, decode, behind, decode-append, decode-raw, decode-body,
  decode-skip,
}
use server_naive_rs.Padding.Read.{
  Flow, returns, goes_on, Pass, data_polled, skip_polled, passed_through, header_polled, deliver,
  read_data, skip_padding, read_hdr_loop, read_pass, read_loop, read_rounds, poll_read,
}
use server_naive_rs.Padding.Read.Invariant.{
  IsReading, decoder, budget, deliver-IsReading, decoder-deliver, decoder_data, skipped-IsReading,
  decoder-skipped, decoder_skip, budget-skipped, parsed-IsReading, decoder-parsed, budget-parsed,
}
use server_naive_rs.Padding.Read.Header.{at_hdr, HeaderGood, read_hdr_loop-HeaderGood}

-- The data that the transport has still to deliver.
abbrev pub to_come : {T : Type 0} → (T → List ℕ) → T → ReadState → List ℕ
to_come incoming t st = decode (decoder st) (incoming t)

-- A pass that returns does what a read may do to the data to come; one that goes on changes
-- nothing of them, and spends some of the budget.
abbrev pub PassGood : {T : Type 0} → (T → List ℕ) → List ℕ → ℕ → ℕ → Option (Pass T) → Type 0
PassGood incoming before room left none = ⊥
PassGood incoming before room left (some (returns p, t, st)) =
    ReadOutcome before room p (to_come incoming t st) × IsReading st
PassGood incoming before room left (some (goes_on, t, st)) =
    (to_come incoming t st ≡ before) × IsReading st × (budget st < left)

decode_nil : (d : Decoder) → decode d [] ≡ []
unfolding decode
decode_nil d = refl

-- Between frames the decoder waits for the header.
decoder_hdr :
    (st : ReadState) (hdr : List ℕ)
    → st.read_data_rem ≡ 0
    → st.read_skip_rem ≡ 0
    → st.read_frames_done < 8
    → length hdr ≤ 2
    → decoder (record st { read_hdr = hdr }) ≡ at_hdr st.read_frames_done hdr
unfolding decoder
decoder_hdr st [] idle dry free l = ground arith
decoder_hdr st (a ∷ []) idle dry free l = ground arith
decoder_hdr st (a ∷ b ∷ []) idle dry free l = ground arith
decoder_hdr st (a ∷ b ∷ c ∷ r) idle dry free l = absurd (omega arith)

module _ {T : Type 0} (incoming : T → List ℕ) (wire : List ℕ) (room : ℕ) (st : ReadState)
    (v : IsReading st) where
  data_polled-PassGood :
      0 < st.read_data_rem
      → (asked : ℕ) → 0 < asked
      → asked ≤ room
      → asked ≤ st.read_data_rem
      → (p : Poll (IoResult (List ℕ))) (t : T) → ReadOutcome wire asked p (incoming t)
      → PassGood incoming (decode (decoder st) wire) room (budget st) (some (data_polled st (p, t)))
  unfolding data_polled
  data_polled-PassGood more asked pos fits inside pending t o = (ap (decode (decoder st)) o, v)
  data_polled-PassGood more asked pos fits inside (ready (err x)) t o = (tt, v)
  data_polled-PassGood more asked pos fits inside (ready (ok [])) t o = (
    (
      ap (decode (decoder st)) o.0,
      omega arith,
      λ _ _. ap (decode (decoder st)) (o.2 refl pos) ∙ decode_nil _,
    ),
    v,
  )
  data_polled-PassGood more asked pos fits inside (ready (ok (b ∷ bs))) t o =
      ((cut, omega (arith, o.1), λ e _. cc), deliver-IsReading st (length (b ∷ bs)) v more)
    where
      inner :
          decode (at_body st.read_frames_done st.read_data_rem st.read_pending_skip) (b ∷ bs)
          ≡ b ∷ bs
      inner =
          (decode-body st.read_frames_done st.read_pending_skip st.read_data_rem (b ∷ bs)
            (omega (arith, o.1))).0

      left :
          behind (at_body st.read_frames_done st.read_data_rem st.read_pending_skip) (b ∷ bs)
          ≡ decoder (deliver st (length (b ∷ bs)))
      left =
          (decode-body st.read_frames_done st.read_pending_skip st.read_data_rem (b ∷ bs)
            (omega (arith, o.1))).1
          ∙ sym (decoder-deliver st _ v more)

      cut :
          decode (decoder st) wire
          ≡ (b ∷ bs) ++ decode (decoder (deliver st (length (b ∷ bs)))) (incoming t)
      cut =
          ap (decode (decoder st)) o.0
          ∙ decode-append (decoder st) (b ∷ bs) (incoming t)
          ∙ rw (decoder_data st 0 v more, inner, left)

  skip_polled-PassGood :
      st.read_data_rem ≡ 0
      → 0 < st.read_skip_rem
      → (asked : ℕ) → 0 < asked
      → asked ≤ st.read_skip_rem
      → (p : Poll (IoResult (List ℕ))) (t : T) → ReadOutcome wire asked p (incoming t)
      → PassGood incoming (decode (decoder st) wire) room (budget st) (some (skip_polled st (p, t)))
  unfolding skip_polled
  skip_polled-PassGood idle more asked pos inside pending t o = (ap (decode (decoder st)) o, v)
  skip_polled-PassGood idle more asked pos inside (ready (err x)) t o = (tt, v)
  skip_polled-PassGood idle more asked pos inside (ready (ok [])) t o = (
    (
      ap (decode (decoder st)) o.0,
      omega arith,
      λ _ _. ap (decode (decoder st)) (o.2 refl pos) ∙ decode_nil _,
    ),
    v,
  )
  skip_polled-PassGood idle more asked pos inside (ready (ok (b ∷ bs))) t o =
      (sym cut, skipped-IsReading st _ v idle more, budget-skipped st _ v idle more (omega arith))
    where
      n : ℕ
      n = length (b ∷ bs)

      gone :
          (decode (at_skip st.read_frames_done st.read_skip_rem) (b ∷ bs) ≡ [])
          × (behind (at_skip st.read_frames_done st.read_skip_rem) (b ∷ bs)
              ≡ at_skip st.read_frames_done (st.read_skip_rem - n))
      gone = decode-skip st.read_frames_done st.read_skip_rem (b ∷ bs) (omega (arith, o.1))

      cut :
          decode (decoder st) wire
          ≡ decode (decoder (record st { read_skip_rem = st.read_skip_rem - n })) (incoming t)
      cut =
          ap (decode (decoder st)) o.0
          ∙ decode-append (decoder st) (b ∷ bs) (incoming t)
          ∙ rw (decoder_skip st 0 v idle more, gone.0, gone.1, decoder-skipped st n v idle more)

  header_polled-PassGood :
      st.read_data_rem ≡ 0
      → st.read_skip_rem ≡ 0
      → st.read_frames_done < 8
      → (o : Option (Flow × T × List ℕ))
      → HeaderGood incoming st.read_frames_done (decode (decoder st) wire) room o
      → PassGood incoming (decode (decoder st) wire) room (budget st) (header_polled st o)
  unfolding header_polled
  header_polled-PassGood idle dry free none g = g
  header_polled-PassGood idle dry free (some (returns p, t, hdr)) g = (
    rw (decoder_hdr st hdr idle dry free g.0) g.2,
    record {
      frames = v.frames;
      part = g.0;
      part_bytes = g.1;
      idle_data = λ more. absurd (omega arith);
      idle_skip = λ more. absurd (omega arith);
      data_u16 = v.data_u16;
      skip_u8 = v.skip_u8;
      pad_u8 = v.pad_u8;
    },
  )
  header_polled-PassGood idle dry free (some (goes_on, t, [])) g = absurd (omega (arith, g.0))
  header_polled-PassGood idle dry free (some (goes_on, t, a ∷ [])) g = absurd (omega (arith, g.0))
  header_polled-PassGood idle dry free (some (goes_on, t, a ∷ b ∷ [])) g =
      absurd (omega (arith, g.0))
  header_polled-PassGood idle dry free (some (goes_on, t, a ∷ b ∷ c ∷ [])) g = (
    ap (λ d. decode d (incoming t)) (decoder-parsed st v idle dry free a b c g.1) ∙ g.2,
    parsed-IsReading st v idle dry free a b c g.1,
    budget-parsed st v idle dry free a b c g.1,
  )
  header_polled-PassGood idle dry free (some (goes_on, t, a ∷ b ∷ c ∷ d ∷ r)) g =
      absurd (omega (arith, g.0))

module _ {T : Type 0} (r : AsyncRead T) (incoming : T → List ℕ) (h : IsReader r incoming)
    (room : ℕ) where
  read_data-PassGood :
      (t : T) (st : ReadState)
      → IsReading st
      → 0 < st.read_data_rem
      → PassGood incoming (to_come incoming t st) room (budget st) (some (read_data r t st room))
  unfolding read_data
  read_data-PassGood t st v more = elim (Bool-cases (room == 0)) [
    | inl full ↦ rw full ((refl, omega arith, λ _ some_room. absurd (ground arith)), v)
    | inr free ↦ rw free (
        data_polled-PassGood incoming (incoming t) room st v more asked (ground arith)
          (ground arith) (ground arith) (r.poll_read t asked).0 (r.poll_read t asked).1
          (h.reads t asked))
  ]
    where
      asked : ℕ
      asked = if ltb st.read_data_rem room then st.read_data_rem else room

  skip_padding-PassGood :
      (t : T) (st : ReadState)
      → IsReading st
      → st.read_data_rem ≡ 0
      → 0 < st.read_skip_rem
      → PassGood incoming (to_come incoming t st) room (budget st) (some (skip_padding r t st))
  unfolding skip_padding
  skip_padding-PassGood t st v idle wet =
      let asked : ℕ = min st.read_skip_rem 256 in
      skip_polled-PassGood incoming (incoming t) room st v idle wet asked (omega arith)
        (omega arith) (r.poll_read t asked).0 (r.poll_read t asked).1 (h.reads t asked)

  passed_through-PassGood :
      (t : T) (st : ReadState)
      → IsReading st
      → decoder st ≡ raw
      → PassGood incoming
          (to_come incoming t st)
          room
          (budget st)
          (some (passed_through st (r.poll_read t room)))
  unfolding passed_through
  passed_through-PassGood t st v e =
      rw (e, decode-raw (incoming t), decode-raw (incoming (r.poll_read t room).1))
        (h.reads t room, v)

  -- What each phase of one pass does.
  pub read_pass-PassGood :
      (t : T) (st : ReadState)
      → IsReading st
      → PassGood incoming (to_come incoming t st) room (budget st) (read_pass r t st room)
  unfolding read_pass
  read_pass-PassGood t st v = elim (Bool-cases (ltb 0 st.read_data_rem)) [
    | inl more ↦ rw more (read_data-PassGood t st v (ltb→lt _ _ more))
    | inr idle ↦ rw idle (elim (Bool-cases (ltb 0 st.read_skip_rem)) [
      | inl wet ↦ rw wet (skip_padding-PassGood t st v (ground arith) (ltb→lt _ _ wet))
      | inr dry ↦ rw dry (elim (Bool-cases (leb padding_frames st.read_frames_done)) [
        | inl done ↦
            rw done (passed_through-PassGood t st v (unfold decoder in rw (idle, dry, done)))
        | inr free ↦ rw free (
            header_polled-PassGood incoming (incoming t) room st v (ground arith) (ground arith)
              (ground arith) (read_hdr_loop r 3 t st.read_hdr)
              (read_hdr_loop-HeaderGood r incoming h st.read_frames_done room 3 t st.read_hdr
                (to_come incoming t st) (omega (arith, v.part)) (omega arith) v.part_bytes
                (ap (λ d. decode d (incoming t))
                  (sym (
                    decoder_hdr st st.read_hdr (ground arith) (ground arith) (ground arith)
                      v.part)))))
      ])
    ])
  ]

-- The loop returned, and did what a read may do.
abbrev pub LoopGood :
    {T : Type 0}
    → (T → List ℕ)
    → List ℕ
    → ℕ
    → Option (Poll (IoResult (List ℕ)) × T × ReadState)
    → Type 0
LoopGood incoming before room none = ⊥
LoopGood incoming before room (some (p, t, st)) =
    ReadOutcome before room p (to_come incoming t st) × IsReading st

module _ {T : Type 0} (r : AsyncRead T) (incoming : T → List ℕ) (h : IsReader r incoming)
    (room : ℕ) where
  pub read_loop-LoopGood :
      (fuel : ℕ) (t : T) (st : ReadState)
      → IsReading st
      → budget st < fuel
      → LoopGood incoming (to_come incoming t st) room (read_loop r fuel t st room)
  unfolding read_loop
  read_loop-LoopGood zero t st v b = absurd (omega arith)
  read_loop-LoopGood (suc fuel) t st v b =
      go (read_loop-LoopGood fuel) (read_pass r t st room) refl
        (read_pass-PassGood r incoming h room t st v)
    where
      go :
          ((t' : T) (st' : ReadState)
            → IsReading st'
            → budget st' < fuel
            → LoopGood incoming (to_come incoming t' st') room (read_loop r fuel t' st' room))
          → (o : Option (Pass T)) → read_pass r t st room ≡ o
          → PassGood incoming (to_come incoming t st) room (budget st) o
          → LoopGood incoming (to_come incoming t st) room (read_loop r (suc fuel) t st room)
      go ih none e g = absurd g
      go ih (some (returns p, t', st')) e g = rw (e, read_loop) g
      go ih (some (goes_on, t', st')) e g =
          rw (e, read_loop)
            (subst (λ w. LoopGood incoming w room (read_loop r fuel t' st' room)) g.0
              (ih t' st' g.1 (omega (arith, g.2))))

-- What `poll_read` leaves of the data to come, and of the other direction.
abbrev pub PollReadGood :
    {T : Type 0}
    → (T → List ℕ)
    → NaivePaddedTransport T
    → ℕ
    → Option (Poll (IoResult (List ℕ)) × NaivePaddedTransport T)
    → Type 0
PollReadGood incoming this room none = ⊥
PollReadGood incoming this room (some (p, next)) =
    ReadOutcome (to_come incoming this.inner this.reading) room p
      (to_come incoming next.inner next.reading)
    × IsReading next.reading
    × (next.writing ≡ this.writing)

budget_bound : (st : ReadState) → IsReading st → budget st < read_rounds
unfolding budget
budget_bound st v = omega arith

module _ {T : Type 0} (r : AsyncRead T) (incoming : T → List ℕ) (h : IsReader r incoming) where
  -- From a well-formed state, whatever room the buffer has, `poll_read` returns. It delivers the next
  -- bytes of the decoded stream, at most as many as there is room for; it fills nothing, with room
  -- left, only if the decoded stream has ended; pending or failing it loses nothing of the decoded
  -- stream. The state is well-formed again and the writing half is as it was.
  pub poll_read_refines :
      (this : NaivePaddedTransport T) (room : ℕ)
      → IsReading this.reading
      → PollReadGood incoming this room (poll_read r this room)
  unfolding poll_read
  poll_read_refines this room v = go (read_loop r read_rounds this.inner this.reading room) (
      read_loop-LoopGood r incoming h room read_rounds this.inner this.reading v
        (budget_bound this.reading v))
    where
      go :
          (o : Option (Poll (IoResult (List ℕ)) × T × ReadState))
          → LoopGood incoming (to_come incoming this.inner this.reading) room o
          → PollReadGood incoming this room
              (Option.map (λ (p, t, st). (p, record this { inner = t; reading = st })) o)
      go none g = g
      go (some (p, t, st)) g = (g.0, g.1, refl)
