-- ===== src/Padding/Sync.antt =====
-- The writing half keeps in step with the decoder of its peer.
use server_naive_rs.Common.{
  ℕ, zero, suc, ◌+◌, ◌≤◌, ◌<◌, ◌≡◌, refl, ap, arith, min, List, ◌++◌, leb, length, take, none, some,
  append_assoc, append-nil, take-append-drop, length-take, Bool-cases, inl, inr, leb→le, ◌⊎◌,
}
use server_naive_rs.Stream.{
  AsyncWrite, IsWriter, WriteOutcome, IoResult, ok, err, Poll, pending, ready,
}
use server_naive_rs.Padding.State.{WriteState, padding_frames, max_padded_payload}
use server_naive_rs.Padding.Protocol.{at_header, raw}
use server_naive_rs.Padding.Random.{
  gen_random_bytes, random_u8, gen_random_bytes-bytes, random_u8-le,
}
use server_naive_rs.Padding.Write.{build_frame, first_polled, sent_raw, write_frame, write_cleared}
use server_naive_rs.Padding.Write.Drain.{
  IsWriting, owed, rest-advance-drop, advance-IsWriting, frames-advance,
}
use server_naive_rs.Padding.Write.Framing.{Reads, Reads-append, Reads-raw, Reads-build_frame}

-- The peer, once it has all that is owed, has read `payload` and stands at the next header.
abbrev pub InSync : {T : Type 0} → (T → List ℕ) → List ℕ → T → WriteState → Type 0
InSync outgoing payload t ws =
    Reads (at_header 0) (owed outgoing t ws) payload (at_header ws.write_frames_done) × IsWriting ws

abbrev pub WriteGood :
    {T : Type 0} → (T → List ℕ) → List ℕ → List ℕ → Poll (IoResult ℕ) → T → WriteState → Type 0
WriteGood outgoing payload buf pending t ws = InSync outgoing payload t ws
WriteGood outgoing payload buf (ready (err e)) t ws =
    InSync outgoing payload t ws
    ⊎ InSync outgoing (payload ++ take (min (length buf) max_padded_payload) buf) t ws
WriteGood outgoing payload buf (ready (ok n)) t ws =
    InSync outgoing (payload ++ take n buf) t ws × (n ≤ length buf)

-- The frame is owed, whatever the first attempt to write it does.
first_polled-owed :
    {T : Type 0} (outgoing : T → List ℕ) (ws : WriteState) (frame sent : List ℕ) (n : ℕ)
    → IsWriting ws
    → ws.write_pending ≡ some frame
    → ws.write_pending_off ≡ 0
    → (p : Poll (IoResult ℕ)) (t : T) → WriteOutcome sent frame p (outgoing t)
    → let r = first_polled ws frame n (p, t) in
      (owed outgoing r.1 r.2 ≡ sent ++ frame)
      × IsWriting r.2
      × (r.2.write_frames_done ≡ ws.write_frames_done)
unfolding first_polled
first_polled-owed outgoing ws frame sent n v e z pending t o = (rw (e, z, o), v, refl)
first_polled-owed outgoing ws frame sent n v e z (ready (err x)) t o = (rw (e, z, o), v, refl)
first_polled-owed outgoing ws frame sent n v e z (ready (ok zero)) t o =
    (rw (e, z, o.0, append-nil sent), v, refl)
first_polled-owed outgoing ws frame sent n v e z (ready (ok (suc k))) t o = (
  rw (rest-advance-drop ws frame (suc k) e, z, o.0, append_assoc)
      (ap (◌++◌ sent) (take-append-drop (suc k) frame)),
  advance-IsWriting ws frame (suc k) v e,
  frames-advance ws frame (suc k),
)

-- What the caller of `first_polled` is told.
first_polled-WriteGood :
    {T : Type 0} (outgoing : T → List ℕ) (payload buf : List ℕ) (ws : WriteState) (frame : List ℕ)
    (p : Poll (IoResult ℕ)) (t : T)
    → let n = min (length buf) max_padded_payload in
      let r = first_polled ws frame n (p, t) in
      InSync outgoing (payload ++ take n buf) r.1 r.2 → WriteGood outgoing payload buf r.0 r.1 r.2
unfolding first_polled
first_polled-WriteGood outgoing payload buf ws frame pending t s = (s, omega arith)
first_polled-WriteGood outgoing payload buf ws frame (ready (err x)) t s = inr s
first_polled-WriteGood outgoing payload buf ws frame (ready (ok zero)) t s = (s, omega arith)
first_polled-WriteGood outgoing payload buf ws frame (ready (ok (suc k))) t s = (s, omega arith)

at_header_raw : (f : ℕ) → 8 ≤ f → at_header f ≡ raw
unfolding at_header
at_header_raw f h = ground arith

-- With nothing pending, what is owed has been written.
settled :
    {T : Type 0} (outgoing : T → List ℕ) (payload : List ℕ) (t : T) (ws : WriteState)
    → ws.write_pending ≡ none
    → InSync outgoing payload t ws
    → Reads (at_header 0) (outgoing t) payload (at_header ws.write_frames_done)
settled outgoing payload t ws e s = rw (e, append-nil) at s.0

build_frame-length : (chunk pad : List ℕ) (n : ℕ) → 0 < length (build_frame chunk n pad)
unfolding build_frame
build_frame-length chunk pad n = omega arith

module _ {T : Type 0} (w : AsyncWrite T) (outgoing : T → List ℕ) (h : IsWriter w outgoing)
    (nanos nanos' rng : ℕ) (payload buf : List ℕ) where
  write_frame-WriteGood :
      (t : T) (ws : WriteState)
      → ws.write_pending ≡ none
      → ws.write_frames_done < 8
      → InSync outgoing payload t ws
      → let r = write_frame w nanos nanos' rng t ws buf in
        WriteGood outgoing payload buf r.0 r.1 r.2
  unfolding write_frame
  write_frame-WriteGood t ws e free s =
      first_polled-WriteGood outgoing payload buf ws1 frame p t'
        (rw (first.0, first.2) queued, first.1)
    where
      n : ℕ
      n = min (length buf) max_padded_payload

      size : ℕ
      size = (random_u8 nanos rng).0

      pad : List ℕ
      pad = (gen_random_bytes nanos' (random_u8 nanos rng).1 size).0

      frame : List ℕ
      frame = build_frame (take n buf) size pad

      ws1 : WriteState
      ws1 = record {
        write_frames_done = ws.write_frames_done + 1;
        write_pending = some frame;
        write_pending_off = 0;
      }

      p : Poll (IoResult ℕ)
      p = (w.poll_write t frame).0

      t' : T
      t' = (w.poll_write t frame).1

      first :
          let r = first_polled ws1 frame n (p, t') in
          (owed outgoing r.1 r.2 ≡ outgoing t ++ frame)
          × IsWriting r.2
          × (r.2.write_frames_done ≡ ws.write_frames_done + 1)
      first =
          first_polled-owed outgoing ws1 frame (outgoing t) n
            (record { frames = omega arith; unfinished = build_frame-length (take n buf) pad size })
            refl refl p t' (h.writes t frame)

      queued :
          Reads
            (at_header 0)
            (outgoing t ++ frame)
            (payload ++ take n buf)
            (at_header (ws.write_frames_done + 1))
      queued = Reads-append (at_header 0) (outgoing t) frame (settled outgoing payload t ws e s) (
          Reads-build_frame ws.write_frames_done size (take n buf) pad free
            (omega (arith, length-take n buf))
            (gen_random_bytes-bytes nanos' (random_u8 nanos rng).1 size).0 (random_u8-le nanos rng))

  sent_raw-WriteGood :
      (t : T) (ws : WriteState)
      → ws.write_pending ≡ none
      → 8 ≤ ws.write_frames_done
      → InSync outgoing payload t ws
      → (p : Poll (IoResult ℕ)) (t' : T) → WriteOutcome (outgoing t) buf p (outgoing t')
      → WriteGood outgoing payload buf p t' ws
  sent_raw-WriteGood t ws e full s pending t' o = (rw o s.0, s.1)
  sent_raw-WriteGood t ws e full s (ready (err x)) t' o = inl (rw o s.0, s.1)
  sent_raw-WriteGood t ws e full s (ready (ok n)) t' o = ((rw (e, append-nil, o.0) more, s.1), o.1)
    where
      before : Reads (at_header 0) (outgoing t) payload raw
      before = rw (at_header_raw ws.write_frames_done full) at (settled outgoing payload t ws e s)

      more :
          Reads
            (at_header 0)
            (outgoing t ++ take n buf)
            (payload ++ take n buf)
            (at_header ws.write_frames_done)
      more =
          rw (at_header_raw ws.write_frames_done full)
            (Reads-append (at_header 0) (outgoing t) (take n buf) before (Reads-raw (take n buf)))

  -- Behind the loop, on every branch.
  pub write_cleared-WriteGood :
      (t : T) (ws : WriteState)
      → ws.write_pending ≡ none
      → InSync outgoing payload t ws
      → let r = write_cleared w nanos nanos' rng t ws buf in
        WriteGood outgoing payload buf r.0 r.1 r.2
  unfolding write_cleared sent_raw
  write_cleared-WriteGood t ws e s = elim (Bool-cases (leb padding_frames ws.write_frames_done)) [
    | inl full ↦ rw full (
        sent_raw-WriteGood t ws e (leb→le _ _ full) s (w.poll_write t buf).0 (w.poll_write t buf).1
          (h.writes t buf))
    | inr free ↦ rw free (write_frame-WriteGood t ws e (ground arith) s)
  ]
