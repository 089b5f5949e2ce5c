-- ===== src/Padding/Write/Drain.antt =====
-- The loop that drains `write_pending`: bytes stay in order, and none is lost or sent twice.
use server_naive_rs.Common.{
  ℕ, zero, suc, ◌+◌, ◌≤◌, ◌<◌, ◌≡◌, refl, sym, ap, arith, List, [], ◌++◌, leb, if◌then◌else◌,
  length, drop, Option, none, some, append_assoc, append-nil, take-append-drop, drop-drop, drop_all,
  length-drop, Bool-cases, inl, inr, leb→le, subst, subst₂, Option-cases,
}
use server_naive_rs.Stream.{
  AsyncWrite, IsWriter, WriteOutcome, IoResult, ok, err, Poll, pending, ready,
}
use server_naive_rs.Padding.State.{WriteState, fresh_writing}
use server_naive_rs.Padding.Write.{Drained, cleared, advance, drain_polled, drain_fuel, drain}

-- A pending frame is never wholly written.
abbrev pub Unfinished : Option (List ℕ) → ℕ → Type 0
Unfinished none off = off ≡ 0
Unfinished (some frame) off = off < length frame

pub record IsWriting (ws : WriteState) : Type 0 where
  pub frames : ws.write_frames_done ≤ 8
  pub unfinished : Unfinished ws.write_pending ws.write_pending_off

pub fresh-IsWriting : IsWriting fresh_writing
fresh-IsWriting = record { frames = omega arith; unfinished = refl }

abbrev pub rest_of : Option (List ℕ) → ℕ → List ℕ
rest_of none off = []
rest_of (some frame) off = drop off frame

-- All that the peer has got and will get of what was queued.
abbrev pub owed : {T : Type 0} → (T → List ℕ) → T → WriteState → List ℕ
owed outgoing t ws = outgoing t ++ rest_of ws.write_pending ws.write_pending_off

module _ (ws : WriteState) (frame : List ℕ) (n : ℕ) where
  pub rest-advance :
      rest_of (advance ws frame n).write_pending (advance ws frame n).write_pending_off ≡ (
        if leb (length frame) (ws.write_pending_off + n)
        then []
        else rest_of ws.write_pending (ws.write_pending_off + n))
  unfolding advance
  rest-advance = ground arith

  pub advance-IsWriting :
      IsWriting ws → ws.write_pending ≡ some frame → IsWriting (advance ws frame n)
  unfolding advance
  advance-IsWriting v e = elim (Bool-cases (leb (length frame) (ws.write_pending_off + n))) [
    | inl over ↦ rw over (record { frames = v.frames; unfinished = refl })
    | inr more ↦ rw more (record { frames = v.frames; unfinished = rw e (ground arith) })
  ]

  pub frames-advance : (advance ws frame n).write_frames_done ≡ ws.write_frames_done
  unfolding advance
  frames-advance = ground arith

  pub rest-advance-drop :
      ws.write_pending ≡ some frame
      → rest_of (advance ws frame n).write_pending (advance ws frame n).write_pending_off
        ≡ drop n (drop ws.write_pending_off frame)
  unfolding advance
  rest-advance-drop e = elim (Bool-cases (leb (length frame) (ws.write_pending_off + n))) [
    | inl over ↦
        rw (over, drop-drop ws.write_pending_off n frame)
          (sym (drop_all (ws.write_pending_off + n) frame (leb→le _ _ over)))
    | inr more ↦ rw (more, e) (sym (drop-drop ws.write_pending_off n frame))
  ]

-- The loop leaves what is owed, in a good state; it is `cleared` with nothing pending.
abbrev pub DrainGood :
    {T : Type 0} → (T → List ℕ) → List ℕ → ℕ → Option (Drained × T × WriteState) → Type 0
DrainGood outgoing before frames none = ⊥
DrainGood outgoing before frames (some (d, t, ws)) =
    (owed outgoing t ws ≡ before)
    × IsWriting ws
    × (ws.write_frames_done ≡ frames)
    × (d ≡ cleared → ws.write_pending ≡ none)

abbrev pub to_drain : WriteState → ℕ
to_drain ws = length (rest_of ws.write_pending ws.write_pending_off)

to_drain_at :
    (ws : WriteState) (frame : List ℕ)
    → ws.write_pending ≡ some frame
    → to_drain ws ≡ length (drop ws.write_pending_off frame)
to_drain_at ws frame e = rw e

to_drain_pos :
    (ws : WriteState) (frame : List ℕ)
    → IsWriting ws
    → ws.write_pending ≡ some frame
    → 0 < to_drain ws
to_drain_pos ws frame v e = omega (
  arith,
  to_drain_at ws frame e,
  length-drop ws.write_pending_off frame,
  subst (λ o. Unfinished o ws.write_pending_off) e v.unfinished,
)

to_drain-le : (ws : WriteState) → to_drain ws ≤ drain_fuel ws
unfolding drain_fuel
to_drain-le ws = elim (Option-cases ws.write_pending) [
  | inl e ↦ rw e (omega arith)
  | inr (frame, e) ↦ rw (e, length-drop ws.write_pending_off frame) (omega arith)
]

module _ {T : Type 0} (w : AsyncWrite T) (outgoing : T → List ℕ) (h : IsWriter w outgoing) where
  drain_polled-DrainGood :
      (again : T → WriteState → Option (Drained × T × WriteState)) (ws : WriteState)
      (frame sent : List ℕ)
      → IsWriting ws
      → ws.write_pending ≡ some frame
      → ((t' : T) (ws' : WriteState)
          → IsWriting ws'
          → to_drain ws' < length (drop ws.write_pending_off frame)
          → DrainGood outgoing (owed outgoing t' ws') ws'.write_frames_done (again t' ws'))
      → (p : Poll (IoResult ℕ)) (t : T)
      → WriteOutcome sent (drop ws.write_pending_off frame) p (outgoing t)
      → DrainGood outgoing
          (sent ++ drop ws.write_pending_off frame)
          ws.write_frames_done
          (drain_polled again ws frame (p, t))
  unfolding drain_polled
  drain_polled-DrainGood again ws frame sent v e ih pending t o = (rw (e, o), v, refl, λ c. cc)
  drain_polled-DrainGood again ws frame sent v e ih (ready (err x)) t o =
      (rw (e, o), v, refl, λ c. cc)
  drain_polled-DrainGood again ws frame sent v e ih (ready (ok zero)) t o =
      (rw (e, o.0, append-nil sent), v, refl, λ c. cc)
  drain_polled-DrainGood again ws frame sent v e ih (ready (ok (suc n))) t o =
      subst₂ (λ b f. DrainGood outgoing b f (again t ws')) kept (frames-advance ws frame (suc n))
        (ih t ws' (advance-IsWriting ws frame (suc n) v e) (
          rw (rest-advance-drop ws frame (suc n) e) (omega (arith, length-drop (suc n) rest, o.1))))
    where
      rest : List ℕ
      rest = drop ws.write_pending_off frame

      ws' : WriteState
      ws' = advance ws frame (suc n)

      kept : owed outgoing t ws' ≡ sent ++ rest
      kept =
          rw (rest-advance-drop ws frame (suc n) e, o.0, append_assoc)
            (ap (◌++◌ sent) (take-append-drop (suc n) rest))

  pub drain-DrainGood :
      (fuel : ℕ) (t : T) (ws : WriteState)
      → IsWriting ws
      → to_drain ws ≤ fuel
      → DrainGood outgoing (owed outgoing t ws) ws.write_frames_done (drain w fuel t ws)
  unfolding drain
  drain-DrainGood zero t ws v b = elim (Option-cases ws.write_pending) [
    | inl e ↦ rw (e, drain) (rw e, v, refl, λ _. e)
    | inr (frame, e) ↦ absurd (omega (arith, to_drain_pos ws frame v e))
  ]
  drain-DrainGood (suc fuel) t ws v b = elim (Option-cases ws.write_pending) [
    | inl e ↦ rw (e, drain) (rw e, v, refl, λ _. e)
    | inr (frame, e) ↦
        let rest = drop ws.write_pending_off frame in
        rw (e, drain)
          (drain_polled-DrainGood (drain w fuel) ws frame (outgoing t) v e
            (λ t' ws' v' less.
              drain-DrainGood fuel t' ws' v' (omega (arith, to_drain_at ws frame e)))
            (w.poll_write t rest).0 (w.poll_write t rest).1 (h.writes t rest))
  ]

  pub drain_all-DrainGood :
      (t : T) (ws : WriteState)
      → IsWriting ws
      → DrainGood outgoing (owed outgoing t ws) ws.write_frames_done (drain w (drain_fuel ws) t ws)
  drain_all-DrainGood t ws v = drain-DrainGood (drain_fuel ws) t ws v (to_drain-le ws)
