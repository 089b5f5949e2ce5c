-- ===== src/Uot/Relaying/Outcome.antt =====
-- How a stream of UDP over TCP ends up.
use server_naive_rs.Common.{
  ℕ, ◌≡◌, refl, subst, Bool, true, false, not, ◌||◌, List, [], ◌∷◌, ◌++◌, Option, none, some,
  append_assoc, if◌then◌else◌,
}
use server_naive_rs.Address.{SocketAddr}
use server_naive_rs.Dns.{DnsCache}
use server_naive_rs.Uot.{Text, UotVersion, read_request, got, fails, Read}
use server_naive_rs.Uot.Relaying.{
  UotRelay, UotEvent, relay_start, relay_step, relay_run, Sockets, UotOutcome, request_failed,
  no_socket, not_connected, ran, connected_to, requested, handle_uot_stream,
}
use server_naive_rs.Uot.Relaying.Invariant.{
  Packet, received, all_received, packed, Passed, PassedAfter, quiet, relay_step-Passed,
}

relay_run-from :
    (text : Text) (cache : DnsCache) (c : Bool) (events : List UotEvent) (came : List Packet)
    (s : UotRelay)
    → Passed c came s
    → PassedAfter c (came ++ all_received events) (relay_run text cache c events s)
unfolding relay_run
relay_run-from text cache c [] came s v = quiet c came s v (some s) v
relay_run-from text cache c (e ∷ events) came s v =
    go (relay_step text cache c s e) (relay_step-Passed c came s v text cache e)
      (λ t. relay_run-from text cache c events (came ++ received e) t)
  where
    go :
        (o : Option UotRelay)
        → PassedAfter c (came ++ received e) o
        → ((t : UotRelay)
            → Passed c (came ++ received e) t
            → PassedAfter c
                ((came ++ received e) ++ all_received events)
                (relay_run text cache c events t))
        → PassedAfter c
            (came ++ all_received (e ∷ events))
            (elim o [ none ↦ none | some t ↦ relay_run text cache c events t ])
    go none h again = tt
    go (some t) h again =
        subst (λ xs. PassedAfter c xs (relay_run text cache c events t))
          (append_assoc came (received e) (all_received events)) (again t h)

relay_run-Passed :
    (text : Text) (cache : DnsCache) (c : Bool) (events : List UotEvent) (left : List ℕ)
    → PassedAfter c (all_received events) (relay_run text cache c events (relay_start left))
unfolding relay_start packed
relay_run-Passed text cache c events left =
    relay_run-from text cache c events [] (relay_start left) (record {
      packets = [];
      lost = [];
      cut = [];
      whole = refl;
      wire = refl;
      counted = refl;
      still_open = λ _. (refl, refl);
      shuts = refl;
      told = λ x. cc;
      uploaded = refl;
    })

module _ (text : Text) (cache : DnsCache) (sockets : Sockets) where
  -- The request that was read, and a socket that was bound for it.
  abbrev pub Requested : UotVersion → List ℕ → Bool → Option SocketAddr → List ℕ → Type 0
  Requested version bytes c dest rest =
      (read_request text cache version bytes ≡ got ((c, dest), rest))
      × ((sockets.bind_v6 || sockets.bind_v4) ≡ true)

  abbrev pub Connected : Option SocketAddr → Type 0
  Connected none = Unit
  Connected (some dest) = sockets.connect dest ≡ true

  -- How a stream of UDP over TCP may end up.
  abbrev pub UotGood : UotVersion → List ℕ → List UotEvent → UotOutcome → Type 0
  UotGood version bytes events (request_failed e) = read_request text cache version bytes ≡ fails e
  UotGood version bytes events no_socket =
      (c : Bool) × (dest : Option SocketAddr) × (rest : List ℕ) × (read_request text cache version
          bytes
        ≡ got ((c, dest), rest))
      × (sockets.bind_v6 ≡ false)
      × (sockets.bind_v4 ≡ false)
  UotGood version bytes events (not_connected dest) =
      (c : Bool) × (rest : List ℕ) × Requested version bytes c (some dest) rest
      × (sockets.connect dest ≡ false)
  UotGood version bytes events (ran dest o) =
      (c : Bool) × (rest : List ℕ) × Requested version bytes c dest rest
      × Connected dest
      × PassedAfter c (all_received events) o

  connected_to-UotGood :
      (version : UotVersion) (bytes : List ℕ) (events : List UotEvent) (c : Bool)
      (dest : Option SocketAddr) (rest : List ℕ)
      → Requested version bytes c dest rest
      → UotGood version bytes events (connected_to text cache sockets events c rest dest)
  unfolding connected_to
  connected_to-UotGood version bytes events c none rest q =
      (c, rest, q, tt, relay_run-Passed text cache c events rest)
  connected_to-UotGood version bytes events c (some d) rest q = go (sockets.connect d) refl
    where
      go :
          (b : Bool)
          → sockets.connect d ≡ b
          → UotGood version bytes events (
              if b
              then ran (some d) (relay_run text cache c events (relay_start rest))
              else not_connected d)
      go true p = (c, rest, q, p, relay_run-Passed text cache c events rest)
      go false p = (c, rest, q, p)

  requested-UotGood :
      (version : UotVersion) (bytes : List ℕ) (events : List UotEvent)
      (r : Read (Bool × Option SocketAddr))
      → read_request text cache version bytes ≡ r
      → UotGood version bytes events (requested text cache sockets events r)
  unfolding requested
  requested-UotGood version bytes events (fails e) q = q
  requested-UotGood version bytes events (got ((c, dest), rest)) q =
      bound sockets.bind_v6 sockets.bind_v4 refl refl
    where
      bound :
          (x y : Bool)
          → sockets.bind_v6 ≡ x
          → sockets.bind_v4 ≡ y
          → UotGood version bytes events (
              if not (x || y)
              then no_socket
              else connected_to text cache sockets events c rest dest)
      bound false false p p' = (c, dest, rest, q, p, p')
      bound true y p p' = connected_to-UotGood version bytes events c dest rest (q, rw p refl)
      bound false true p p' =
          connected_to-UotGood version bytes events c dest rest (q, rw (p, p') refl)

  -- The stream ends before the loops exactly where the request cannot be read, no socket can be bound,
  -- or the socket cannot be connected to the address that the request names; the end tells which. Otherwise, however the two loops, the client, the network and a kick
  -- interleave: what was written to the client is the packets of a first part of the datagrams that came
  -- in, whole and in order, and of one more a part if its write failed; exactly the whole ones are
  -- counted. The stream is shut down exactly if the output has ended, for whatever reason, the inner
  -- token is cancelled once either loop has ended, and each datagram sent is counted.
  pub handle_uot_stream-UotGood :
      (version : UotVersion) (bytes : List ℕ) (events : List UotEvent)
      → UotGood version bytes events (handle_uot_stream text cache sockets version bytes events)
  unfolding handle_uot_stream
  handle_uot_stream-UotGood version bytes events =
      requested-UotGood version bytes events (read_request text cache version bytes) refl
