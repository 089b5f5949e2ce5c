-- ===== src/Stream/Memory.antt =====
-- In-memory streams for the tests of the modules that use a stream.
use server_naive_rs.Common.{
  ℕ, zero, suc, ◌%◌, ◌≤◌, ◌<◌, ◌≡◌, refl, ap, arith, min, List, [], ◌∷◌, ◌++◌, length, take, drop,
  All, map,
}
use server_naive_rs.Stream.{AsyncRead, AsyncWrite, IsReader, IsWriter, ok, ready, IsByte}

-- A buffer that hands out bytes.
abbrev pub octets : List ℕ → List ℕ
octets = map (λ b. b % 256)

abbrev pub buffer_reader : AsyncRead (List ℕ)
buffer_reader = record { poll_read = λ t room. (ready (ok (octets (take room t))), drop room t) }

octets-bytes : (t : List ℕ) → All IsByte (octets t)
octets-bytes [] = tt
octets-bytes (b ∷ t) = (omega arith, octets-bytes t)

octets-take : (room : ℕ) (t : List ℕ) → octets t ≡ octets (take room t) ++ octets (drop room t)
octets-take zero t = refl
octets-take (suc n) [] = refl
octets-take (suc n) (b ∷ t) = ap (◌∷◌ (b % 256)) (octets-take n t)

octets-room : (room : ℕ) (t : List ℕ) → length (octets (take room t)) ≤ room
octets-room zero t = omega arith
octets-room (suc n) [] = omega arith
octets-room (suc n) (b ∷ t) = omega (arith, octets-room n t)

octets-end : (room : ℕ) (t : List ℕ) → octets (take room t) ≡ [] → 0 < room → octets t ≡ []
octets-end zero t e h = absurd (omega arith)
octets-end (suc n) [] e h = refl
octets-end (suc n) (b ∷ t) e h = cc

pub buffer_reader-IsReader : IsReader buffer_reader octets
buffer_reader-IsReader = record {
  reads = λ t room. (octets-take room t, octets-room room t, octets-end room t);
  bytes = octets-bytes;
}

-- A sink that takes at most five bytes at a time.
abbrev pub sink : AsyncWrite (List ℕ)
sink = record {
  poll_write = λ t buf. (ready (ok (min 5 (length buf))), t ++ take (min 5 (length buf)) buf);
  poll_flush = λ t. (ready (ok tt), t);
  poll_shutdown = λ t. (ready (ok tt), t);
}

pub sink-IsWriter : IsWriter sink (λ t. t)
sink-IsWriter = record {
  writes = λ t buf. (refl, omega arith);
  flushes = λ t. refl;
  shuts = λ t. refl;
}

-- Both at once: what is to be read, and what was written.
abbrev pub Pipe : Type 0
Pipe = List ℕ × List ℕ

abbrev pub pipe_reader : AsyncRead Pipe
pipe_reader = record {
  poll_read =
      λ t room. ((buffer_reader.poll_read t.0 room).0, ((buffer_reader.poll_read t.0 room).1, t.1));
}

abbrev pub pipe_writer : AsyncWrite Pipe
pipe_writer = record {
  poll_write = λ t buf. ((sink.poll_write t.1 buf).0, (t.0, (sink.poll_write t.1 buf).1));
  poll_flush = λ t. (ready (ok tt), t);
  poll_shutdown = λ t. (ready (ok tt), t);
}

pub pipe_reader-IsReader : IsReader pipe_reader (λ t. octets t.0)
pipe_reader-IsReader = record {
  reads = λ t room. buffer_reader-IsReader.reads t.0 room;
  bytes = λ t. buffer_reader-IsReader.bytes t.0;
}

pub pipe_writer-IsWriter : IsWriter pipe_writer (λ t. t.1)
pipe_writer-IsWriter = record {
  writes = λ t buf. sink-IsWriter.writes t.1 buf;
  flushes = λ t. refl;
  shuts = λ t. refl;
}
