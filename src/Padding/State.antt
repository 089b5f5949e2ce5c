-- ===== src/Padding/State.antt =====
-- The fields of `NaivePaddedTransport` (src/transport/padding.rs).
use server_naive_rs.Common.{ℕ, List, [], Option, none}

abbrev pub padding_frames : ℕ
padding_frames = 8

abbrev pub max_padded_payload : ℕ
max_padded_payload = 65535

-- `read_hdr` holds the first `read_hdr_pos` bytes of the array of that name; the bytes behind
-- them are written before they are read.
pub record ReadState : Type 0 where
  pub read_frames_done : ℕ
  pub read_hdr : List ℕ
  pub read_data_rem : ℕ
  pub read_skip_rem : ℕ
  pub read_pending_skip : ℕ

pub record WriteState : Type 0 where
  pub write_frames_done : ℕ
  pub write_pending : Option (List ℕ)
  pub write_pending_off : ℕ

pub record NaivePaddedTransport (T : Type 0) : Type 0 where
  pub inner : T
  pub reading : ReadState
  pub writing : WriteState

abbrev pub fresh_reading : ReadState
fresh_reading = record {
  read_frames_done = 0;
  read_hdr = [];
  read_data_rem = 0;
  read_skip_rem = 0;
  read_pending_skip = 0;
}

abbrev pub fresh_writing : WriteState
fresh_writing = record { write_frames_done = 0; write_pending = none; write_pending_off = 0 }

unfoldable pub new : {T : Type 0} → T → NaivePaddedTransport T
new inner = record { inner = inner; reading = fresh_reading; writing = fresh_writing }
