-- ===== src/H3Stream/Tests.antt =====
-- Runs of the HTTP/3 stream over channels in memory, and its theorems at them.
use server_naive_rs.Common.{
  ℕ, ◌%◌, ◌≡◌, refl, arith, true, false, map, take, drop, List, [], ◌∷◌, ◌++◌, Option, none, some,
  All,
}
use server_naive_rs.Stream.{ok, Poll, ready, IsByte, IsReader}
use server_naive_rs.Padding.State.{NaivePaddedTransport, new}
use server_naive_rs.Padding.Read
use server_naive_rs.Padding.Write
use server_naive_rs.Padding.Session.{Wrote, start, accepted, filled}
use server_naive_rs.Padding.Random.{random_u8}
use server_naive_rs.H3Stream.{
  InboundFrame, body, datagram, OutboundFrame, Receiver, RecvOutcome, HasBytes, IsReceiver, Sender,
  IsSender, reader, poll_read, h3_writer,
}
use server_naive_rs.H3Stream.Reading.{bodies, to_come, Reader, h3_reader, h3_reader-IsReader}
use server_naive_rs.H3Stream.Writing.{bytes_of}
use server_naive_rs.H3Stream.Session.{fresh, h3_received_all}

abbrev octets : List ℕ → List ℕ
octets = map (λ b. b % 256)

octets-IsByte : (bytes : List ℕ) → All IsByte (octets bytes)
octets-IsByte [] = tt
octets-IsByte (b ∷ bytes) = (omega arith, octets-IsByte bytes)

abbrev clean : InboundFrame → InboundFrame
clean (body bytes fin) = body (octets bytes) fin
clean (datagram bytes) = datagram (octets bytes)

abbrev next_frame : List InboundFrame → Poll (Option InboundFrame) × List InboundFrame
next_frame [] = (ready none, [])
next_frame (frame ∷ frames) = (ready (some (clean frame)), frames)

abbrev frames : Receiver (List InboundFrame)
frames = record { poll_recv = next_frame }

clean-HasBytes : (fs : List InboundFrame) → All HasBytes (map clean fs)
clean-HasBytes [] = tt
clean-HasBytes (body bytes fin ∷ fs) = (octets-IsByte bytes, clean-HasBytes fs)
clean-HasBytes (datagram bytes ∷ fs) = (tt, clean-HasBytes fs)

frames-IsReceiver : IsReceiver frames (map clean)
frames-IsReceiver = record { recvs = go; bytes = clean-HasBytes }
  where
    go :
        (fs : List InboundFrame)
        → RecvOutcome (map clean fs) (next_frame fs).0 (map clean (next_frame fs).1)
    go [] = (refl, refl)
    go (frame ∷ fs) = refl

abbrev channel : Sender (List OutboundFrame)
channel = record {
  poll_reserve = λ s. (ready (ok tt), s);
  send_item = λ s frame. (true, s ++ frame ∷ []);
}

channel-IsSender : IsSender channel (λ s. s)
channel-IsSender = record { reserves = λ s. refl; sends = λ s frame. refl }

-- A datagram and an empty frame are passed over, and FIN ends the stream.
abbrev sample : List InboundFrame
sample = datagram (9 ∷ []) ∷ body [] false ∷ body (1 ∷ 2 ∷ 3 ∷ []) true ∷ body (4 ∷ []) false ∷ []

reads_two :
    poll_read frames 5 (reader sample) 2
    ≡ some (
      ready (ok (1 ∷ 2 ∷ [])),
      record { recv = body (4 ∷ []) false ∷ []; buf = some (3 ∷ []); fin = true },
    )
unfolding poll_read reader
reads_two = refl

h3_reader-IsReader_example :
    IsReader (h3_reader frames (map clean) frames-IsReceiver) (λ t. to_come (map clean) t.0)
h3_reader-IsReader_example = h3_reader-IsReader frames (map clean) frames-IsReceiver

abbrev next_of :
    {A T : Type 0}
    → NaivePaddedTransport T
    → Option (A × NaivePaddedTransport T)
    → NaivePaddedTransport T
next_of this none = this
next_of this (some (p, next)) = next

hi : List ℕ
hi = b'h' ∷ b'i' ∷ []

-- One frame of the padding, in one frame of HTTP/3.
server : NaivePaddedTransport (List OutboundFrame)
unfolding Write.poll_write new Write.drain Write.drain_fuel Write.write_drained Write.write_cleared
    Write.write_frame Write.first_polled random_u8 Write.advance Write.build_frame hi h3_writer
server = next_of (new []) (Write.poll_write (h3_writer channel) 0 0 1 (new []) hi)

server_run : Write.poll_write (h3_writer channel) 0 0 1 (new []) hi ≡ some (ready (ok 2), server)
unfolding server
server_run = refl

hi-Wrote : Wrote (h3_writer channel) (new []) hi server
unfolding hi
hi-Wrote = accepted 0 0 1 2 hi start server_run

-- The bytes come in cut elsewhere, with FIN in a frame of its own.
arriving : List InboundFrame
unfolding server
arriving =
    body (take 2 (bytes_of server.inner)) false
    ∷ body (drop 2 (bytes_of server.inner)) false
    ∷ body [] true
    ∷ []

abbrev Peer : Type 0
Peer = NaivePaddedTransport (Reader frames (map clean) frames-IsReceiver)

client : Peer
unfolding arriving
client = new (fresh frames (map clean) frames-IsReceiver arriving)

client_read : Peer
unfolding client Read.poll_read Read.read_loop Read.read_pass Read.read_data Read.skip_padding
    Read.read_hdr_loop Read.hdr_polled Read.header_polled Read.data_polled Read.skip_polled
    Read.passed_through Read.deliver Read.parse_header h3_reader poll_read
client_read =
    next_of client (Read.poll_read (h3_reader frames (map clean) frames-IsReceiver) client 16)

client_ended : Peer
unfolding client_read
client_ended =
    next_of client_read
      (Read.poll_read (h3_reader frames (map clean) frames-IsReceiver) client_read 16)

read_run :
    Read.poll_read (h3_reader frames (map clean) frames-IsReceiver) client 16
    ≡ some (ready (ok hi), client_read)
unfolding client_read
read_run = refl

end_run :
    Read.poll_read (h3_reader frames (map clean) frames-IsReceiver) client_read 16
    ≡ some (ready (ok []), client_ended)
unfolding client_ended
end_run = refl

idle : server.writing.write_pending ≡ none
unfolding server
idle = refl

link : bodies (map clean arriving) ≡ bytes_of server.inner
unfolding arriving
link = refl

h3_received_all_example : hi ≡ hi
unfolding client
h3_received_all_example =
    h3_received_all channel (λ s. s) channel-IsSender frames (map clean) frames-IsReceiver []
      arriving refl 16 hi-Wrote idle link (filled 16 start read_run) (omega arith) end_run
