-- ===== src/Padding/Read/Invariant.antt =====
-- The read state of the padded transport: its invariant, and the decoder that it stands for.
use server_naive_rs.Common.{
  ℕ, ◌+◌, ◌-◌, ◌*◌, ◌≤◌, ◌<◌, ◌≡◌, arith, [], ◌∷◌, ltb, leb, if◌then◌else◌, length, All,
}
use server_naive_rs.Stream.{IsByte}
use server_naive_rs.Padding.State.{ReadState, fresh_reading, padding_frames}
use server_naive_rs.Padding.Protocol.{Decoder, header, body, skip, raw, at_header, at_skip, at_body}
use server_naive_rs.Padding.Read.{deliver, parse_header}

pub record IsReading (st : ReadState) : Type 0 where
  pub frames : st.read_frames_done ≤ 8
  pub part : length st.read_hdr ≤ 2
  pub part_bytes : All IsByte st.read_hdr
  pub idle_data : 0 < st.read_data_rem → st.read_hdr ≡ []
  pub idle_skip : 0 < st.read_skip_rem → st.read_hdr ≡ []
  pub data_u16 : st.read_data_rem ≤ 65535
  pub skip_u8 : st.read_skip_rem ≤ 255
  pub pad_u8 : st.read_pending_skip ≤ 255

-- The protocol's decoder at a read state.
unfoldable pub decoder : ReadState → Decoder
decoder st =
    if ltb 0 st.read_data_rem
    then body st.read_frames_done st.read_data_rem st.read_pending_skip
    else if ltb 0 st.read_skip_rem
    then skip st.read_frames_done st.read_skip_rem
    else if leb padding_frames st.read_frames_done
    then raw
    else header st.read_frames_done st.read_hdr

-- How many passes of `loop` may still go on.
unfoldable pub budget : ReadState → ℕ
budget st = st.read_skip_rem + (8 - st.read_frames_done) * 256

pub fresh-IsReading : IsReading fresh_reading
fresh-IsReading = ground arith

-- Some data of a frame are delivered.
module _ (st : ReadState) (n : ℕ) (v : IsReading st) (more : 0 < st.read_data_rem) where
  pub deliver-IsReading : IsReading (deliver st n)
  unfolding deliver
  deliver-IsReading = ground (arith, v.idle_data more)

  pub decoder-deliver :
      decoder (deliver st n)
      ≡ at_body st.read_frames_done (st.read_data_rem - n) st.read_pending_skip
  unfolding deliver decoder at_body at_skip at_header
  decoder-deliver = ground (arith, v.idle_data more)

  pub decoder_data : decoder st ≡ at_body st.read_frames_done st.read_data_rem st.read_pending_skip
  unfolding decoder at_body
  decoder_data = ground arith

-- Padding is skipped.
module _ (st : ReadState) (n : ℕ) (v : IsReading st) (idle : st.read_data_rem ≡ 0)
    (more : 0 < st.read_skip_rem) where
  abbrev pub skipped : ReadState
  skipped = record st { read_skip_rem = st.read_skip_rem - n }

  pub skipped-IsReading : IsReading skipped
  skipped-IsReading = ground (arith, v.idle_skip more)

  pub decoder-skipped : decoder skipped ≡ at_skip st.read_frames_done (st.read_skip_rem - n)
  unfolding decoder at_skip at_header
  decoder-skipped = ground (arith, v.idle_skip more)

  pub decoder_skip : decoder st ≡ at_skip st.read_frames_done st.read_skip_rem
  unfolding decoder at_skip
  decoder_skip = ground arith

  pub budget-skipped : 0 < n → budget skipped < budget st
  unfolding budget
  budget-skipped h = omega arith

-- A header is complete.
module _ (st : ReadState) (v : IsReading st) (idle : st.read_data_rem ≡ 0)
    (dry : st.read_skip_rem ≡ 0) (open_frame : st.read_frames_done < 8) (a b c : ℕ)
    (bytes : All IsByte (a ∷ b ∷ c ∷ [])) where
  pub parsed-IsReading : IsReading (parse_header (record st { read_hdr = a ∷ b ∷ c ∷ [] }))
  unfolding parse_header
  parsed-IsReading = ground arith

  pub decoder-parsed :
      decoder (parse_header (record st { read_hdr = a ∷ b ∷ c ∷ [] }))
      ≡ at_body (st.read_frames_done + 1) (a * 256 + b) c
  unfolding parse_header decoder at_body at_skip at_header
  decoder-parsed = ground arith

  pub budget-parsed : budget (parse_header (record st { read_hdr = a ∷ b ∷ c ∷ [] })) < budget st
  unfolding parse_header budget
  budget-parsed = ground arith
