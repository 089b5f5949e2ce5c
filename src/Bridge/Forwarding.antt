-- ===== src/Bridge/Forwarding.antt =====
-- What the bridge forwards.
use server_naive_rs.Common.{
  ℕ, ◌≡◌, refl, sym, ap, ◌∙◌, Bool, true, false, List, [], ◌∷◌, ◌++◌, take, drop, append-nil,
  append_assoc, take-append-drop,
}
use server_naive_rs.Bridge.{
  WriteAll, all_written, fails_behind, Event, body_bytes, body_end, body_error, pipe_bytes,
  pipe_end, pipe_error, ResponseFrame, chunk, end_of_stream, Bridge, upload, upload_ended, download,
  download_ended,
}

-- The bytes that an event brings from either side.
abbrev pub up_bytes : Event → List ℕ
up_bytes (body_bytes bytes w) = bytes
up_bytes body_end = []
up_bytes body_error = []
up_bytes (pipe_bytes bytes accepted) = []
up_bytes (pipe_end accepted) = []
up_bytes (pipe_error accepted) = []

abbrev pub down_bytes : Event → List ℕ
down_bytes (body_bytes bytes w) = []
down_bytes body_end = []
down_bytes body_error = []
down_bytes (pipe_bytes bytes accepted) = bytes
down_bytes (pipe_end accepted) = []
down_bytes (pipe_error accepted) = []

abbrev pub all_up : List Event → List ℕ
all_up [] = []
all_up (e ∷ events) = up_bytes e ++ all_up events

abbrev pub all_down : List Event → List ℕ
all_down [] = []
all_down (e ∷ events) = down_bytes e ++ all_down events

-- Frames that carry bytes, and then the end of the stream or nothing.
abbrev pub frames : List (List ℕ) → Bool → List ResponseFrame
frames [] true = end_of_stream ∷ []
frames [] false = []
frames (c ∷ chunks) ended = chunk c ∷ frames chunks ended

abbrev pub joined : List (List ℕ) → List ℕ
joined [] = []
joined (c ∷ chunks) = c ++ joined chunks

-- Of the bytes `ups` and `downs` that came in, what went on, and what was lost.
pub record Forwarded (ups downs : List ℕ) (b : Bridge) : Type 0 where
  pub lost_up : List ℕ
  pub lost_down : List ℕ
  pub chunks : List (List ℕ)
  pub ended : Bool
  pub upward : b.pipe_in ++ lost_up ≡ ups
  pub up_open : b.up_eof ≡ false → (lost_up ≡ []) × (b.pipe_shut ≡ false)
  pub up_shut : b.pipe_shut ≡ true → lost_up ≡ []
  pub framed : b.response ≡ frames chunks ended
  pub downward : joined chunks ++ lost_down ≡ downs
  pub down_open : b.down_eof ≡ false → (lost_down ≡ []) × (ended ≡ false)
  pub down_end : ended ≡ true → lost_down ≡ []

frames-chunk :
    (chunks : List (List ℕ)) (c : List ℕ)
    → frames chunks false ++ (chunk c ∷ []) ≡ frames (chunks ++ (c ∷ [])) false
frames-chunk [] c = refl
frames-chunk (d ∷ chunks) c = ap (◌∷◌ (chunk d)) (frames-chunk chunks c)

frames-end :
    (chunks : List (List ℕ)) → frames chunks false ++ (end_of_stream ∷ []) ≡ frames chunks true
frames-end [] = refl
frames-end (d ∷ chunks) = ap (◌∷◌ (chunk d)) (frames-end chunks)

joined-append :
    (chunks : List (List ℕ)) (c : List ℕ) → joined (chunks ++ (c ∷ [])) ≡ joined chunks ++ c
joined-append [] c = append-nil c
joined-append (d ∷ chunks) c =
    ap (◌++◌ d) (joined-append chunks c) ∙ sym (append_assoc d (joined chunks) c)

module _ (ups downs : List ℕ) (b : Bridge) (f : Forwarded ups downs b) where
  pub upload-Forwarded :
      (bytes : List ℕ) (w : WriteAll)
      → b.up_eof ≡ false
      → Forwarded (ups ++ bytes) downs (upload b bytes w)
  unfolding upload
  upload-Forwarded bytes all_written o = record {
    lost_up = [];
    lost_down = f.lost_down;
    chunks = f.chunks;
    ended = f.ended;
    upward = append-nil (b.pipe_in ++ bytes) ∙ ap (λ xs. xs ++ bytes) all_up_to;
    up_open = λ _. (refl, (f.up_open o).1);
    up_shut = λ _. refl;
    framed = f.framed;
    downward = f.downward;
    down_open = f.down_open;
    down_end = f.down_end;
  }
    where
      all_up_to : b.pipe_in ≡ ups
      all_up_to = sym (append-nil b.pipe_in) ∙ ap (◌++◌ b.pipe_in) (sym (f.up_open o).0) ∙ f.upward
  upload-Forwarded bytes (fails_behind n) o = record {
    lost_up = drop n bytes;
    lost_down = f.lost_down;
    chunks = f.chunks;
    ended = f.ended;
    upward =
        append_assoc b.pipe_in (take n bytes) (drop n bytes)
        ∙ ap (◌++◌ b.pipe_in) (take-append-drop n bytes)
        ∙ ap (λ xs. xs ++ bytes) all_up_to;
    up_open = λ x. cc;
    up_shut = λ x. cc (f.up_open o).1;
    framed = f.framed;
    downward = f.downward;
    down_open = f.down_open;
    down_end = f.down_end;
  }
    where
      all_up_to : b.pipe_in ≡ ups
      all_up_to = sym (append-nil b.pipe_in) ∙ ap (◌++◌ b.pipe_in) (sym (f.up_open o).0) ∙ f.upward

  pub upload_ended-Forwarded : b.up_eof ≡ false → Forwarded ups downs (upload_ended b)
  unfolding upload_ended
  upload_ended-Forwarded o = record {
    lost_up = f.lost_up;
    lost_down = f.lost_down;
    chunks = f.chunks;
    ended = f.ended;
    upward = f.upward;
    up_open = λ x. cc;
    up_shut = λ _. (f.up_open o).0;
    framed = f.framed;
    downward = f.downward;
    down_open = f.down_open;
    down_end = f.down_end;
  }

  all_down_to : b.down_eof ≡ false → joined f.chunks ≡ downs
  all_down_to o =
      sym (append-nil (joined f.chunks))
      ∙ ap (◌++◌ (joined f.chunks)) (sym (f.down_open o).0)
      ∙ f.downward

  framed_open : b.down_eof ≡ false → b.response ≡ frames f.chunks false
  framed_open o = f.framed ∙ ap (frames f.chunks) (f.down_open o).1

  pub download-Forwarded :
      (bytes : List ℕ) (accepted : Bool)
      → b.down_eof ≡ false
      → Forwarded ups (downs ++ bytes) (download b bytes accepted)
  unfolding download
  download-Forwarded bytes true o = record {
    lost_up = f.lost_up;
    lost_down = [];
    chunks = f.chunks ++ (bytes ∷ []);
    ended = false;
    upward = f.upward;
    up_open = f.up_open;
    up_shut = f.up_shut;
    framed = ap (λ xs. xs ++ (chunk bytes ∷ [])) (framed_open o) ∙ frames-chunk f.chunks bytes;
    downward =
        append-nil (joined (f.chunks ++ (bytes ∷ [])))
        ∙ joined-append f.chunks bytes
        ∙ ap (λ xs. xs ++ bytes) (all_down_to o);
    down_open = λ _. (refl, refl);
    down_end = λ x. cc;
  }
  download-Forwarded bytes false o = record {
    lost_up = f.lost_up;
    lost_down = bytes;
    chunks = f.chunks;
    ended = false;
    upward = f.upward;
    up_open = f.up_open;
    up_shut = f.up_shut;
    framed = framed_open o;
    downward = ap (λ xs. xs ++ bytes) (all_down_to o);
    down_open = λ x. cc;
    down_end = λ x. cc;
  }

  pub download_ended-Forwarded :
      (accepted : Bool) → b.down_eof ≡ false → Forwarded ups downs (download_ended b accepted)
  unfolding download_ended
  download_ended-Forwarded true o = record {
    lost_up = f.lost_up;
    lost_down = [];
    chunks = f.chunks;
    ended = true;
    upward = f.upward;
    up_open = f.up_open;
    up_shut = f.up_shut;
    framed = ap (λ xs. xs ++ (end_of_stream ∷ [])) (framed_open o) ∙ frames-end f.chunks;
    downward = append-nil (joined f.chunks) ∙ all_down_to o;
    down_open = λ x. cc;
    down_end = λ _. refl;
  }
  download_ended-Forwarded false o = record {
    lost_up = f.lost_up;
    lost_down = f.lost_down;
    chunks = f.chunks;
    ended = f.ended;
    upward = f.upward;
    up_open = f.up_open;
    up_shut = f.up_shut;
    framed = f.framed;
    downward = f.downward;
    down_open = λ x. cc;
    down_end = f.down_end;
  }
