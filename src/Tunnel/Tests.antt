-- ===== src/Tunnel/Tests.antt =====
-- A tunnel over two in-memory pipes, and the theorems at it.
use server_naive_rs.Common.{
  ℕ, ◌+◌, ◌^◌, ◌<◌, ◌≡◌, refl, arith, true, false, [], ◌∷◌, ◌++◌, none, some,
}
use server_naive_rs.IpFilter.{Ipv4Addr, is_private_ipv4}
use server_naive_rs.Address.{v4, SocketAddr, Address, domain}
use server_naive_rs.Dns.{DnsCache, found, check_private_and_resolve, scan}
use server_naive_rs.Router.{direct}
use server_naive_rs.Router.Acl
use server_naive_rs.Router.Acl.{AclRouter}
use server_naive_rs.Connect.{socket_addr, Attempt}
use server_naive_rs.Connection.{new, register}
use server_naive_rs.Connection.Agreement.{Left, new-IsConsistent, register_lem}
use server_naive_rs.Stream.Memory.{
  octets, Pipe, pipe_reader, pipe_writer, pipe_reader-IsReader, pipe_writer-IsWriter,
}
use server_naive_rs.Uot.{Text, version1}
use server_naive_rs.Uot.Relaying.{input_reads, sends}
use server_naive_rs.Relay.Bidirectional.{Sleep, record_upload, record_download}
use server_naive_rs.Relay.Duplex.{IsDuplex}
use server_naive_rs.Tunnel.{
  magic_v1, detect_uot, Network, AclAddr, dialed, Polls, relay, through, datagram, relay_ended,
  tunnel, process_tunnel,
}
use server_naive_rs.Auth.{Decoding, basic}
use server_naive_rs.Address.Authority.{Parsing}
use server_naive_rs.Request.{Request}
use server_naive_rs.Tunnel.Serving.{served, process_h3_request, Guarded, process_h3_request-Guarded}
use server_naive_rs.Tunnel.Relaying.{RelaySeen, relay-RelaySeen}
use server_naive_rs.Tunnel.Dials.{PublicDials, process_tunnel-PublicDials}

detects : detect_uot (b'S' ∷ b'P' ∷ b'.' ∷ b'v' ∷ b'2' ∷ b'.' ∷ []) ≡ none
unfolding detect_uot
detects = refl

detects_magic : detect_uot magic_v1 ≡ some version1
unfolding detect_uot
detects_magic = refl

pipe-IsDuplex : IsDuplex pipe_reader pipe_writer (λ t. octets t.0) (λ t. t.1)
pipe-IsDuplex = record {
  reader = pipe_reader-IsReader;
  writer = pipe_writer-IsWriter;
  reads = λ t room. refl;
  writes = λ t buf. refl;
  flushes = λ t. refl;
  shuts = λ t. refl;
}

abbrev alarm : Sleep (Unit {0})
alarm = record { reset = λ t. t; elapsed = λ t. (true, t) }

abbrev client : Pipe
client = (1 ∷ 2 ∷ [], [])

abbrev origin : Pipe
origin = (3 ∷ [], [])

abbrev public_ip : Ipv4Addr
public_ip = record { a = 93; b = 184; c = 216; d = 34 }

abbrev cache : DnsCache
cache = record { resolve_with_port_iter = λ host p. found (socket_addr p (v4 public_ip) ∷ []) }

abbrev router : AclRouter ℕ
router = record {
  engine = record { compiled = λ addr. none; outbounds = ("direct", direct 7 true) ∷ [] };
  block_private_ip = true;
  dns_cache = cache;
}

abbrev text : Text
text = record {
  show_v4 = λ ip. ip.a ∷ ip.b ∷ ip.c ∷ ip.d ∷ [];
  show_v6 = λ ip. [];
  parse_ip = λ s. some (v4 (record { a = 127; b = 0; c = 0; d = 1 }));
  is_utf8 = λ s. true;
}

abbrev net : Network ℕ Pipe
net = record {
  printing = record { show_v4 = λ ip. []; show_v6 = λ ip. []; show_u16 = λ n. [] };
  connect = λ addr. Attempt.connected origin;
  dial_tcp = λ handler addr. dialed origin;
  dns_cache = cache;
  text = text;
  sockets = record { bind_v6 = true; bind_v4 = true; connect = λ dest. true };
}

abbrev target : Address
target = domain (b'a' ∷ []) 443

abbrev peer : SocketAddr
peer = socket_addr 5000 (v4 public_ip)

abbrev polls : Polls
polls = record {
  relaying = 9 ∷ [];
  padded_shutdown = 1;
  remote_shutdown = 1;
  client_bytes = 0 ∷ 127 ∷ 0 ∷ 0 ∷ 1 ∷ 0 ∷ 53 ∷ 0 ∷ 1 ∷ b'h' ∷ [];
  uot_events = input_reads (sends 1) ∷ [];
}

abbrev target_info : AclAddr
target_info = record {
  host = b'a' ∷ [];
  port = 443;
  resolve_info = some (record { ipv4 = some public_ip; ipv6 = none });
}

routes : Acl.route router target ≡ direct (some (v4 public_ip ∷ [])) (some (direct 7 true))
unfolding Acl.route check_private_and_resolve is_private_ipv4 scan
routes = refl

tunnels :
    tunnel pipe_reader pipe_writer pipe_reader pipe_writer alarm tt 6 net polls 42 client target
      (direct (some (v4 public_ip ∷ [])) (some (direct 7 true)))
    ≡ (
      through (direct 7 true) target_info ∷ [],
      some (
          relay_ended (record {
            cancelled = false;
            calls = record_upload 42 2 ∷ record_download 42 1 ∷ [];
            padded = ([], 3 ∷ []);
            remote = ([], 1 ∷ 2 ∷ []);
          })),
    )
unfolding tunnel
tunnels = refl

-- A magic name: a datagram goes to the loopback address.
unfiltered :
    (tunnel pipe_reader pipe_writer pipe_reader pipe_writer alarm tt 6 net polls 42 client
      (domain magic_v1 443)
      (direct (some (v4 public_ip ∷ [])) (some (direct 7 true)))).0
    ≡ datagram (socket_addr 53 (v4 (record { a = 127; b = 0; c = 0; d = 1 }))) ∷ []
unfolding tunnel
unfiltered = refl

-- Kicked before the first poll: nothing is recorded.
kicked :
    relay pipe_reader pipe_writer pipe_reader pipe_writer alarm tt 6
      (record polls { relaying = [] })
      42
      client
      origin
    ≡ some (record { cancelled = true; calls = []; padded = client; remote = origin })
unfolding relay
kicked = refl

relay-RelaySeen_example :
    RelaySeen pipe_reader pipe_writer
      (λ t. octets t.0)
      (λ t. t.1)
      pipe-IsDuplex
      pipe_reader
      pipe_writer
      (λ t. octets t.0)
      (λ t. t.1)
      pipe-IsDuplex
      alarm
      client
      origin
      42
      (relay pipe_reader pipe_writer pipe_reader pipe_writer alarm tt 6 polls 42 client origin)
relay-RelaySeen_example =
    relay-RelaySeen pipe_reader pipe_writer (λ t. octets t.0) (λ t. t.1) pipe-IsDuplex pipe_reader
      pipe_writer (λ t. octets t.0) (λ t. t.1) pipe-IsDuplex alarm client origin 42 tt 6 polls
      (omega arith) ((omega arith, omega arith), tt)

new_room : new.next_conn_id + 1 < 2 ^ 64
unfolding new
new_room = omega arith

process_tunnel-PublicDials_example :
    let (ids, registered) = register new 42 peer 0 in
    let (result, (after, requests)) =
      process_tunnel pipe_reader pipe_writer pipe_reader pipe_writer alarm tt 6 net
        (λ manager. manager)
        polls
        new
        0
        peer
        42
        client
        target
        (direct (some (v4 public_ip ∷ [])) (some (direct 7 true))) in
    PublicDials pipe_reader pipe_writer pipe_reader pipe_writer alarm tt 6 net router target polls
      result
    × Left registered ids.0 after
    × (requests ≡ 42 ∷ [])
process_tunnel-PublicDials_example =
    process_tunnel-PublicDials pipe_reader pipe_writer pipe_reader pipe_writer alarm tt 6 net router
      target (some (v4 public_ip ∷ [])) (some (direct 7 true)) refl routes (λ manager. manager)
      polls new 0 peer 42 client (register_lem new new-IsConsistent 42 peer 0 new_room).0

abbrev parsing : Parsing
parsing = record {
  trim = λ t. t;
  parse_u16 = λ t. some 443;
  parse_v4 = λ t. none;
  parse_v6 = λ t. none;
}

abbrev decoding : Decoding
decoding = record { trim = λ t. t; decode = λ t. some t; is_utf8 = λ t. true }

abbrev asked : Request
asked = record {
  is_connect = true;
  has_padding = true;
  authority = some (b'a' ∷ b':' ∷ b'9' ∷ []);
  auth_header = some (basic ++ (b'u' ∷ b':' ∷ b'p' ∷ []));
}

serves :
    process_h3_request pipe_reader pipe_writer pipe_reader pipe_writer alarm tt 6 net parsing
      decoding
      (λ text. some 42)
      router
      (λ manager. manager)
      polls
      new
      0
      peer
      client
      true
      asked
    ≡ served target 42 (direct (some (v4 public_ip ∷ [])) (some (direct 7 true))) (
      through (direct 7 true) target_info ∷ [],
      some (
          relay_ended (record {
            cancelled = false;
            calls = record_upload 42 2 ∷ record_download 42 1 ∷ [];
            padded = ([], 3 ∷ []);
            remote = ([], 1 ∷ 2 ∷ []);
          })),
    )
unfolding process_h3_request tunnel Acl.route check_private_and_resolve is_private_ipv4 scan new
serves = refl

process_h3_request-Guarded_example :
    Guarded pipe_reader pipe_writer pipe_reader pipe_writer alarm tt 6 net parsing decoding
      (λ text. some 42)
      router
      polls
      asked
      (process_h3_request pipe_reader pipe_writer pipe_reader pipe_writer alarm tt 6 net parsing
        decoding
        (λ text. some 42)
        router
        (λ manager. manager)
        polls
        new
        0
        peer
        client
        true
        asked)
process_h3_request-Guarded_example =
    process_h3_request-Guarded pipe_reader pipe_writer pipe_reader pipe_writer alarm tt 6 net
      parsing decoding (λ text. some 42) router refl (λ manager. manager) polls new 0 peer client
      true asked
