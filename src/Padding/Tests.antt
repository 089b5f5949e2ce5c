-- ===== src/Padding/Tests.antt =====
-- Runs of the padded transport over in-memory streams, and its theorems at them.
use server_naive_rs.Common.{
  ℕ, ◌≤◌, ◌≡◌, refl, arith, List, [], ◌∷◌, ◌++◌, length, replicate, Option, none, some, All,
}
use server_naive_rs.Stream.{ok, ready}
use server_naive_rs.Stream.Memory.{
  octets, buffer_reader, buffer_reader-IsReader, sink, sink-IsWriter,
}
use server_naive_rs.Padding.State.{NaivePaddedTransport, new}
use server_naive_rs.Padding.Random.{
  random_u8, generate_padding_header, IsLead, generate_padding_header_lem,
}
use server_naive_rs.Padding.Write.{
  advance, drain_polled, drain_fuel, build_frame, first_polled, drain, write_frame, write_cleared,
  write_drained, poll_write, flush_drained, poll_flush,
}
use server_naive_rs.Padding.Read.{
  deliver, parse_header, data_polled, skip_polled, passed_through, hdr_polled, header_polled,
  read_data, skip_padding, read_hdr_loop, read_pass, read_loop, poll_read,
}
use server_naive_rs.Padding.Read.Invariant.{fresh-IsReading}
use server_naive_rs.Padding.Read.Refines.{PollReadGood, poll_read_refines}
use server_naive_rs.Padding.RoundTrip.{Carries, PollWriteGood, poll_write-Carries}
use server_naive_rs.Padding.Session.{
  Wrote-Carries, Wrote, Got, start, accepted, flushed, filled, received_prefix, received_all,
}

abbrev next_of :
    {A T : Type 0}
    → NaivePaddedTransport T
    → Option (A × NaivePaddedTransport T)
    → NaivePaddedTransport T
next_of this none = this
next_of this (some (p, next)) = next

hi : List ℕ
hi = b'h' ∷ b'i' ∷ []

-- The padded frame of `hi`, written five bytes at a time.
written : NaivePaddedTransport (List ℕ)
unfolding poll_write new drain drain_fuel write_drained write_cleared write_frame first_polled
    random_u8 advance build_frame hi
written = next_of (new []) (poll_write sink 0 0 1 (new []) hi)

flushed_out : NaivePaddedTransport (List ℕ)
unfolding written poll_flush flush_drained drain_polled
flushed_out = next_of written (poll_flush sink written)

write_run : poll_write sink 0 0 1 (new []) hi ≡ some (ready (ok 2), written)
unfolding written
write_run = refl

flush_run : poll_flush sink written ≡ some (ready (ok tt), flushed_out)
unfolding flushed_out
flush_run = refl

wire_length : length flushed_out.inner ≡ 70
unfolding flushed_out
wire_length = refl

-- The peer's transport, which reads what was written.
peer : NaivePaddedTransport (List ℕ)
unfolding flushed_out
peer = new flushed_out.inner

peer_read : NaivePaddedTransport (List ℕ)
unfolding peer poll_read read_loop read_pass read_data skip_padding read_hdr_loop hdr_polled
    header_polled data_polled skip_polled passed_through deliver parse_header
peer_read = next_of peer (poll_read buffer_reader peer 16)

peer_ended : NaivePaddedTransport (List ℕ)
unfolding peer_read
peer_ended = next_of peer_read (poll_read buffer_reader peer_read 16)

read_run : poll_read buffer_reader peer 16 ≡ some (ready (ok hi), peer_read)
unfolding peer_read
read_run = refl

end_run : poll_read buffer_reader peer_read 16 ≡ some (ready (ok []), peer_ended)
unfolding peer_ended
end_run = refl

hi-Wrote : Wrote sink (new []) hi flushed_out
unfolding hi
hi-Wrote = flushed (accepted 0 0 1 2 hi start write_run) flush_run

hi-Got : Got buffer_reader peer hi peer_read
hi-Got = filled 16 start read_run

link : octets flushed_out.inner ≡ flushed_out.inner
unfolding flushed_out
link = refl

idle : flushed_out.writing.write_pending ≡ none
unfolding flushed_out
idle = refl

received_all_example : hi ≡ hi
unfolding peer
received_all_example =
    received_all sink (λ t. t) sink-IsWriter buffer_reader octets buffer_reader-IsReader []
      flushed_out.inner refl 16 hi-Wrote idle link hi-Got (omega arith) end_run

received_prefix_example : (tail : List ℕ) × (hi ≡ hi ++ tail)
unfolding peer
received_prefix_example =
    received_prefix sink (λ t. t) sink-IsWriter buffer_reader octets buffer_reader-IsReader []
      flushed_out.inner refl hi-Wrote link hi-Got

poll_read_refines_example : PollReadGood octets peer 16 (poll_read buffer_reader peer 16)
unfolding peer new
poll_read_refines_example =
    poll_read_refines buffer_reader octets buffer_reader-IsReader peer 16 fresh-IsReading

hi-Carries : Carries (λ t. t) hi flushed_out
unfolding hi
hi-Carries = Wrote-Carries sink (λ t. t) sink-IsWriter [] refl hi-Wrote

poll_write-Carries_example :
    PollWriteGood
      (λ t. t)
      hi
      flushed_out
      (b'o' ∷ [])
      (poll_write sink 5 6 7 flushed_out (b'o' ∷ []))
poll_write-Carries_example =
    poll_write-Carries sink (λ t. t) sink-IsWriter 5 6 7 hi (b'o' ∷ []) flushed_out hi-Carries

generate_padding_header_lem_example :
    (start : List ℕ) × (n : ℕ) × ((generate_padding_header 5 6 7).0 ≡ start ++ replicate n b'~')
    × (length start ≡ 16)
    × All IsLead start
    × (14 ≤ n)
    × (n ≤ 45)
generate_padding_header_lem_example = generate_padding_header_lem 5 6 7
