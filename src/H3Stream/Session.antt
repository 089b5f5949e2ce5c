-- ===== src/H3Stream/Session.antt =====
-- The padded transport over HTTP/3: the server writes frames, whose bytes the peer's channel brings.
use server_naive_rs.Common.{ℕ, ◌<◌, ◌≡◌, ap, false, List, [], none, some}
use server_naive_rs.Stream.{ok, ready}
use server_naive_rs.Padding.State.{NaivePaddedTransport, new}
use server_naive_rs.Padding.Read
use server_naive_rs.Padding.Session.{Wrote, Got, received_all}
use server_naive_rs.H3Stream.{
  InboundFrame, OutboundFrame, Receiver, IsReceiver, Sender, IsSender, h3_writer,
}
use server_naive_rs.H3Stream.Reading.{bodies, h3_reader, h3_reader-IsReader, Reader}
use server_naive_rs.H3Stream.Writing.{bytes_of, h3_writer-IsWriter}

-- A fresh reader over the channel.
abbrev pub fresh :
    {R : Type 0} (c : Receiver R) (queue : R → List InboundFrame) (h : IsReceiver c queue)
    → R
    → Reader c queue h
fresh c queue h r = (record { recv = r; buf = none; fin = false }, tt)

-- For a padded transport over the writer of an HTTP/3 stream that has sent nothing, and the peer's over
-- the reader of a stream whose channel brings, in whatever frames, exactly the bytes that the first has
-- put into its own, whatever histories of calls the two have: if the writer has no frame pending and
-- the reader has met the end of the stream, by a read with room that filled nothing, the bytes
-- delivered are the bytes accepted.
pub h3_received_all :
    {S R : Type 0} (cs : Sender S) (sent : S → List OutboundFrame) (hs : IsSender cs sent)
    (cr : Receiver R) (queue : R → List InboundFrame) (hr : IsReceiver cr queue) (s : S) (r : R)
    → sent s ≡ []
    → {accepted delivered : List ℕ} {this : NaivePaddedTransport S}
      {that last : NaivePaddedTransport (Reader cr queue hr)} (room : ℕ)
    → Wrote (h3_writer cs) (new s) accepted this
    → this.writing.write_pending ≡ none
    → bodies (queue r) ≡ bytes_of (sent this.inner)
    → Got (h3_reader cr queue hr) (new (fresh cr queue hr r)) delivered that
    → 0 < room
    → Read.poll_read (h3_reader cr queue hr) that room ≡ some (ready (ok []), last)
    → delivered ≡ accepted
h3_received_all cs sent hs cr queue hr s r unused {this = this} room sends idle link gets some_room
      e =
    received_all (h3_writer cs) (λ t. bytes_of (sent t)) (h3_writer-IsWriter cs sent hs)
      (h3_reader cr queue hr) _ (h3_reader-IsReader cr queue hr) s (fresh cr queue hr r)
      (ap bytes_of unused) room sends idle link gets some_room e
