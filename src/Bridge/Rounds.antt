-- ===== src/Bridge/Rounds.antt =====
-- What any run of the bridge forwards.
use server_naive_rs.Common.{
  ℕ, ◌≡◌, refl, sym, Bool, false, List, [], ◌∷◌, ◌++◌, Option, none, some, append-nil, append_assoc,
  subst, subst₂, Bool-cases, inl, inr,
}
use server_naive_rs.Bridge.{
  Event, body_bytes, body_end, body_error, pipe_bytes, pipe_end, pipe_error, Bridge, start, upload,
  upload_ended, download, download_ended, unless, round, run_session_bridge,
}
use server_naive_rs.Bridge.Forwarding.{
  up_bytes, down_bytes, all_up, all_down, Forwarded, upload-Forwarded, upload_ended-Forwarded,
  download-Forwarded, download_ended-Forwarded,
}

abbrev pub ForwardedAfter : List ℕ → List ℕ → Option Bridge → Type 0
ForwardedAfter ups downs none = Unit {0}
ForwardedAfter ups downs (some b) = Forwarded ups downs b

module _ (ups downs : List ℕ) (b : Bridge) (f : Forwarded ups downs b) where
  -- A round that brings nothing from above, or from below.
  quiet_up :
      (x : List ℕ) (o : Option Bridge) → ForwardedAfter ups x o → ForwardedAfter (ups ++ []) x o
  quiet_up x o h = subst (λ u. ForwardedAfter u x o) (sym (append-nil ups)) h

  quiet_down :
      (x : List ℕ) (o : Option Bridge) → ForwardedAfter x downs o → ForwardedAfter x (downs ++ []) o
  quiet_down x o h = subst (λ d. ForwardedAfter x d o) (sym (append-nil downs)) h

  from_above :
      (u : List ℕ) (next : Bridge)
      → (b.up_eof ≡ false → Forwarded u downs next)
      → ForwardedAfter u (downs ++ []) (unless b.up_eof next)
  from_above u next h =
      quiet_down u (unless b.up_eof next)
        (elim (Bool-cases b.up_eof) [ inl off ↦ rw off tt | inr on ↦ rw on (h on) ])

  from_below :
      (d : List ℕ) (next : Bridge)
      → (b.down_eof ≡ false → Forwarded ups d next)
      → ForwardedAfter (ups ++ []) d (unless b.down_eof next)
  from_below d next h =
      quiet_up d (unless b.down_eof next)
        (elim (Bool-cases b.down_eof) [ inl off ↦ rw off tt | inr on ↦ rw on (h on) ])

  ending_up : ForwardedAfter (ups ++ []) (downs ++ []) (unless b.up_eof (upload_ended b))
  ending_up =
      from_above (ups ++ []) (upload_ended b)
        (λ o. quiet_up downs (some (upload_ended b)) (upload_ended-Forwarded ups downs b f o))

  ending_down :
      (accepted : Bool)
      → ForwardedAfter (ups ++ []) (downs ++ []) (unless b.down_eof (download_ended b accepted))
  ending_down accepted = from_below (downs ++ []) (download_ended b accepted) (λ o.
      quiet_down ups (some (download_ended b accepted))
        (download_ended-Forwarded ups downs b f accepted o))

  round-Forwarded :
      (e : Event) → ForwardedAfter (ups ++ up_bytes e) (downs ++ down_bytes e) (round b e)
  unfolding round
  round-Forwarded (body_bytes bytes w) =
      from_above (ups ++ bytes) (upload b bytes w) (upload-Forwarded ups downs b f bytes w)
  round-Forwarded body_end = ending_up
  round-Forwarded body_error = ending_up
  round-Forwarded (pipe_bytes [] accepted) = ending_down accepted
  round-Forwarded (pipe_bytes (x ∷ bytes) accepted) =
      from_below (downs ++ (x ∷ bytes)) (download b (x ∷ bytes) accepted)
        (download-Forwarded ups downs b f (x ∷ bytes) accepted)
  round-Forwarded (pipe_end accepted) = ending_down accepted
  round-Forwarded (pipe_error accepted) = ending_down accepted

rounds-Forwarded :
    (events : List Event) (ups downs : List ℕ) (b : Bridge)
    → Forwarded ups downs b
    → ForwardedAfter (ups ++ all_up events) (downs ++ all_down events) (run_session_bridge events b)
unfolding run_session_bridge
rounds-Forwarded [] ups downs b f =
    quiet_up ups downs b f (downs ++ []) (some b) (quiet_down ups downs b f ups (some b) f)
rounds-Forwarded (e ∷ events) ups downs b f =
    go (round b e) (round-Forwarded ups downs b f e)
      (λ b'. rounds-Forwarded events (ups ++ up_bytes e) (downs ++ down_bytes e) b')
  where
    go :
        (o : Option Bridge)
        → ForwardedAfter (ups ++ up_bytes e) (downs ++ down_bytes e) o
        → ((b' : Bridge)
            → Forwarded (ups ++ up_bytes e) (downs ++ down_bytes e) b'
            → ForwardedAfter
                ((ups ++ up_bytes e) ++ all_up events)
                ((downs ++ down_bytes e) ++ all_down events)
                (run_session_bridge events b'))
        → ForwardedAfter
            (ups ++ all_up (e ∷ events))
            (downs ++ all_down (e ∷ events))
            (elim o [ none ↦ none | some b' ↦ run_session_bridge events b' ])
    go none h again = tt
    go (some b') h again =
        subst₂ (λ u d. ForwardedAfter u d (run_session_bridge events b'))
          (append_assoc ups (up_bytes e) (all_up events))
          (append_assoc downs (down_bytes e) (all_down events)) (again b' h)

-- In whatever order the client's body and the pipe bring their bytes, and wherever a write fails, what
-- was written into the pipe is a first part of what came from the client, and all of it where the pipe
-- was shut down; the frames of the response carry a first part of what came out of the pipe, and the
-- end of the stream, if it is there, is the last of them and behind all of it.
pub run_session_bridge-Forwarded :
    (events : List Event)
    → ForwardedAfter (all_up events) (all_down events) (run_session_bridge events start)
unfolding start
run_session_bridge-Forwarded events = rounds-Forwarded events [] [] start (record {
  lost_up = [];
  lost_down = [];
  chunks = [];
  ended = false;
  upward = refl;
  up_open = λ _. (refl, refl);
  up_shut = λ _. refl;
  framed = refl;
  downward = refl;
  down_open = λ _. (refl, refl);
  down_end = λ _. refl;
})
