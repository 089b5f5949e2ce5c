-- ===== src/Padding/Read.antt =====
-- `AsyncRead for NaivePaddedTransport` (src/transport/padding.rs): `poll_read` and its loop.
-- `inner` is any stream `T` with a `poll_read`, a parameter of the module.
pub mod Invariant
pub mod Header
pub mod Refines
use server_naive_rs.Common.{
  ℕ, zero, suc, ◌+◌, ◌-◌, ◌*◌, ◌/◌, ◌%◌, ◌≤◌, ◌<◌, ◌≡◌, refl, sym, ap, ◌∙◌, arith, Bool, true,
  false, List, [], ◌∷◌, ◌++◌, ltb, leb, if◌then◌else◌, length, get_or, Option, none, some, min,
  ◌==◌,
}
use mathlib.Core.Option
use server_naive_rs.Stream.{AsyncRead, IoResult, ok, err, Poll, pending, ready}
use server_naive_rs.Padding.State.{ReadState, NaivePaddedTransport, padding_frames}

-- One pass of a loop returns from the function, or goes on.
pub data Flow : Type 0 where
  returns : Poll (IoResult (List ℕ)) → Flow
  goes_on : Flow

-- Some data of the frame are delivered; behind the last of them comes the padding.
unfoldable pub deliver : ReadState → ℕ → ReadState
deliver st n =
    let left = record st { read_data_rem = st.read_data_rem - n } in
    if ltb 0 left.read_data_rem
    then left
    else record left { read_skip_rem = left.read_pending_skip; read_pending_skip = 0 }

-- Parse: [u16 data_size BE][u8 padding_size].
unfoldable pub parse_header : ReadState → ReadState
parse_header st =
    let data_size = get_or st.read_hdr 0 0 * 256 + get_or st.read_hdr 1 0 in
    let padding_size = get_or st.read_hdr 2 0 in
    let next : ReadState = record {
      read_hdr = [];
      read_frames_done = st.read_frames_done + 1;
      read_data_rem = data_size;
      read_skip_rem = st.read_skip_rem;
      read_pending_skip = padding_size;
    } in
    if ltb 0 data_size
    then next
    else record next { read_skip_rem = padding_size; read_pending_skip = 0; read_data_rem = 0 }

-- Fuel for `loop`: eight headers, each with 255 bytes of padding behind it, and the padding that is
-- being skipped, with one byte to a pass, and the pass that returns.
abbrev pub read_rounds : ℕ
read_rounds = 8 * 256 + 255 + 1

-- What one pass leaves: the flow, the inner stream and the read state.
abbrev pub Pass : Type 0 → Type 0
Pass T = Flow × T × ReadState

unfoldable pub data_polled : {T : Type 0} → ReadState → Poll (IoResult (List ℕ)) × T → Pass T
data_polled st (pending, t) = (returns pending, t, st)
data_polled st (ready (err e), t) = (returns (ready (err e)), t, st)
data_polled st (ready (ok []), t) = (returns (ready (ok [])), t, st)
data_polled st (ready (ok (b ∷ bs)), t) =
    (returns (ready (ok (b ∷ bs))), t, deliver st (length (b ∷ bs)))

unfoldable pub skip_polled : {T : Type 0} → ReadState → Poll (IoResult (List ℕ)) × T → Pass T
skip_polled st (pending, t) = (returns pending, t, st)
skip_polled st (ready (err e), t) = (returns (ready (err e)), t, st)
skip_polled st (ready (ok []), t) = (returns (ready (ok [])), t, st)
skip_polled st (ready (ok (b ∷ bs)), t) =
    (goes_on, t, record st { read_skip_rem = st.read_skip_rem - length (b ∷ bs) })

-- Phase 3: raw passthrough.
unfoldable pub passed_through : {T : Type 0} → ReadState → Poll (IoResult (List ℕ)) × T → Pass T
passed_through st (p, t) = (returns p, t, st)

-- One round of the header's loop: `again` goes on with the bytes read so far.
unfoldable pub hdr_polled :
    {T : Type 0}
    → (T → List ℕ → Option (Flow × T × List ℕ))
    → List ℕ
    → Poll (IoResult (List ℕ)) × T
    → Option (Flow × T × List ℕ)
hdr_polled again hdr (pending, t) = some (returns pending, t, hdr)
hdr_polled again hdr (ready (err e), t) = some (returns (ready (err e)), t, hdr)
hdr_polled again hdr (ready (ok []), t) = some (returns (ready (ok [])), t, hdr)
hdr_polled again hdr (ready (ok (b ∷ bs)), t) = again t (hdr ++ b ∷ bs)

-- The header is complete, or its loop has returned.
unfoldable pub header_polled :
    {T : Type 0} → ReadState → Option (Flow × T × List ℕ) → Option (Pass T)
header_polled st none = none
header_polled st (some (returns p, t, hdr)) = some (returns p, t, record st { read_hdr = hdr })
header_polled st (some (goes_on, t, hdr)) =
    some (goes_on, t, parse_header (record st { read_hdr = hdr }))

module _ {T : Type 0} (r : AsyncRead T) where
  -- Phase 1: deliver data bytes of the current frame, and none from behind its end.
  unfoldable pub read_data : T → ReadState → ℕ → Pass T
  read_data t st room =
      if room == 0
      then (returns (ready (ok [])), t, st)
      else data_polled st
          (r.poll_read t (if ltb st.read_data_rem room then st.read_data_rem else room))

  -- Phase 2: skip padding bytes of the previous frame, through a scratch buffer.
  unfoldable pub skip_padding : T → ReadState → Pass T
  skip_padding t st = skip_polled st (r.poll_read t (min st.read_skip_rem 256))

  -- Phase 4: `while read_hdr_pos < 3`. `none` means that the fuel ran out.
  unfoldable pub read_hdr_loop : ℕ → T → List ℕ → Option (Flow × T × List ℕ)
  read_hdr_loop zero t hdr = if ltb (length hdr) 3 then none else some (goes_on, t, hdr)
  read_hdr_loop (suc fuel) t hdr =
      let rest = hdr_polled (read_hdr_loop fuel) hdr (r.poll_read t (3 - length hdr)) in
      if ltb (length hdr) 3 then rest else some (goes_on, t, hdr)

  -- One pass of `loop`. The header has three bytes, and each of its rounds takes one at least.
  unfoldable pub read_pass : T → ReadState → ℕ → Option (Pass T)
  read_pass t st room =
      if ltb 0 st.read_data_rem
      then some (read_data t st room)
      else if ltb 0 st.read_skip_rem
      then some (skip_padding t st)
      else if leb padding_frames st.read_frames_done
      then some (passed_through st (r.poll_read t room))
      else header_polled st (read_hdr_loop 3 t st.read_hdr)

  unfoldable pub read_loop :
      ℕ → T → ReadState → ℕ → Option (Poll (IoResult (List ℕ)) × T × ReadState)
  read_loop zero t st room = none
  read_loop (suc fuel) t st room = elim (read_pass t st room) [
    | none ↦ none
    | some (returns p, t', st') ↦ some (p, t', st')
    | some (goes_on, t', st') ↦ read_loop fuel t' st' room
  ]

  unfoldable pub poll_read :
      NaivePaddedTransport T → ℕ → Option (Poll (IoResult (List ℕ)) × NaivePaddedTransport T)
  poll_read this room =
      Option.map (λ (p, t, st). (p, record this { inner = t; reading = st }))
        (read_loop read_rounds this.inner this.reading room)
