-- ===== src/Tunnel.antt =====
-- handler.rs: an authorized tunnel, from its registration to its end, and detect_uot of uot.rs.
-- What the dialers and the sockets answer is a parameter.
pub mod Relaying
pub mod Dials
pub mod Serving
mod Tests
use server_naive_rs.Common.{
  ℕ, zero, suc, ◌+◌, ◌≤◌, Bool, true, false, ◌&&◌, ◌==◌, leb, List, [], ◌∷◌, Option, none, some,
  map, if◌then◌else◌,
}
use server_naive_rs.Stream.{AsyncRead, AsyncWrite, IoError, IoResult, ok, err, Poll, pending, ready}
use server_naive_rs.IpFilter.{Ipv4Addr, Ipv6Addr}
use server_naive_rs.Address.{IpAddr, SocketAddr, Address, port, Printing, host}
use server_naive_rs.Dns.{DnsCache}
use server_naive_rs.Router.{OutboundHandler, OutboundType, direct, reject, proxy}
use server_naive_rs.Connect.{Attempt, Log, ResolveInfo, resolve_info_from_ips, connect_direct}
use server_naive_rs.Connection.{ConnectionManager, register, unregister}
use server_naive_rs.Uot.{Text, UotVersion, version1, version2}
use server_naive_rs.Uot.Relaying.{
  UotRelay, UotEvent, Sockets, UotOutcome, request_failed, no_socket, not_connected, ran,
  handle_uot_stream,
}
use server_naive_rs.Relay.Bidirectional.{Sleep, CopyResult, Recorded, copy_bidirectional_with_stats}

-- `str::eq_ignore_ascii_case`.
unfoldable pub lower : ℕ → ℕ
lower b = if leb 65 b && leb b 90 then b + 32 else b

unfoldable pub eq_ignore_ascii_case : List ℕ → List ℕ → Bool
unfolding lower
eq_ignore_ascii_case [] [] = true
eq_ignore_ascii_case [] (c ∷ t) = false
eq_ignore_ascii_case (b ∷ s) [] = false
eq_ignore_ascii_case (b ∷ s) (c ∷ t) = lower b == lower c && eq_ignore_ascii_case s t

-- ".udp-over-tcp.arpa".
abbrev magic_suffix : List ℕ
magic_suffix =
    b'.' ∷ b'u' ∷ b'd' ∷ b'p' ∷ b'-' ∷ b'o' ∷ b'v' ∷ b'e' ∷ b'r' ∷ b'-' ∷ b't' ∷ b'c' ∷ b'p' ∷ b'.'
    ∷ b'a' ∷ b'r' ∷ b'p' ∷ b'a' ∷ []

abbrev pub magic_v1 : List ℕ
magic_v1 = b's' ∷ b'p' ∷ magic_suffix

abbrev pub magic_v2 : List ℕ
magic_v2 = b's' ∷ b'p' ∷ b'.' ∷ b'v' ∷ b'2' ∷ magic_suffix

unfoldable pub detect_uot : List ℕ → Option UotVersion
unfolding eq_ignore_ascii_case
detect_uot name =
    if eq_ignore_ascii_case name magic_v2
    then some version2
    else (if eq_ignore_ascii_case name magic_v1 then some version1 else none)

-- acl::Addr.
pub record AclAddr : Type 0 where
  pub host : List ℕ
  pub port : ℕ
  pub resolve_info : Option ResolveInfo

-- `dial_tcp` within the timeout.
pub data DialAnswer (R : Type 0) : Type 0 where
  dialed : R → DialAnswer R
  dial_error dial_elapsed : DialAnswer R

-- Where a connection was tried, or a datagram of UDP over TCP was sent.
pub data Dial (D : Type 0) : Type 0 where
  through : OutboundHandler D → AclAddr → Dial D
  socket : SocketAddr → Dial D
  datagram : SocketAddr → Dial D

pub data TunnelError : Type 0 where
  direct_failed direct_timeout proxy_failed proxy_timeout : TunnelError
  connect_failed : IoError → TunnelError

pub data Remote (R : Type 0) : Type 0 where
  reached : R → Remote R
  not_reached : TunnelError → Remote R

unfoldable pub dial_result : {R : Type 0} → TunnelError → TunnelError → DialAnswer R → Remote R
dial_result failed timeout (dialed r) = reached r
dial_result failed timeout dial_error = not_reached failed
dial_result failed timeout dial_elapsed = not_reached timeout

unfoldable pub connect_result : {R : Type 0} → IoResult R → Remote R
connect_result (ok r) = reached r
connect_result (err e) = not_reached (connect_failed e)

-- The address for a custom dialer, with what the router has checked.
unfoldable pub acl_addr : Printing → Address → Option (List IpAddr) → AclAddr
unfolding host resolve_info_from_ips
acl_addr p target none = record { host = host p target; port = port target; resolve_info = none }
acl_addr p target (some ips) = record {
  host = host p target;
  port = port target;
  resolve_info = some (resolve_info_from_ips ips);
}

-- What the connection-making code uses.
pub record Network (D R : Type 0) : Type 0 where
  pub printing : Printing
  pub connect : SocketAddr → Attempt R
  pub dial_tcp : OutboundHandler D → AclAddr → DialAnswer R
  pub dns_cache : DnsCache
  pub text : Text
  pub sockets : Sockets

module _ {D R : Type 0} (net : Network D R) where
  -- handle_direct_connect, up to the relay.
  unfoldable pub direct_connect :
      Address → Option (List IpAddr) → Option (OutboundHandler D) → List (Dial D) × Remote R
  unfolding acl_addr dial_result connect_result connect_direct
  direct_connect target resolved (some handler) =
      let addr = acl_addr net.printing target resolved in
      (
        through handler addr ∷ [],
        dial_result direct_failed direct_timeout (net.dial_tcp handler addr),
      )
  direct_connect target resolved none =
      let (tried, result) = connect_direct net.connect net.dns_cache target resolved in
      (map socket tried, connect_result result)

  -- handle_proxy_connect, up to the relay.
  unfoldable pub proxy_connect : Address → OutboundHandler D → List (Dial D) × Remote R
  unfolding acl_addr dial_result
  proxy_connect target handler =
      let addr = acl_addr net.printing target none in
      (
        through handler addr ∷ [],
        dial_result proxy_failed proxy_timeout (net.dial_tcp handler addr),
      )

-- `timeout(SHUTDOWN_TIMEOUT, stream.shutdown())`, polled so often before it is over.
unfoldable pub shutdown : {T : Type 0} → AsyncWrite T → ℕ → T → T
shutdown w zero t = t
shutdown w (suc polls) t =
    let again = shutdown w polls (w.poll_shutdown t).1 in
    elim (w.poll_shutdown t).0 [ pending ↦ again | ready result ↦ (w.poll_shutdown t).1 ]

-- How the relay of a tunnel ends: the calls of the statistics, and the streams.
pub record RelayEnd (A R : Type 0) : Type 0 where
  pub cancelled : Bool
  pub calls : List Recorded
  pub padded : A
  pub remote : R

-- The polls of the relay until it ends or the connection is kicked, and those of the shutdowns. For UDP
-- over TCP, the bytes that the client sends through the padding, and the events of the two loops.
pub record Polls : Type 0 where
  pub relaying : List ℕ
  pub padded_shutdown : ℕ
  pub remote_shutdown : ℕ
  pub client_bytes : List ℕ
  pub uot_events : List UotEvent

unfoldable pub relayed :
    {A R : Type 0}
    → AsyncWrite A
    → AsyncWrite R
    → Polls
    → Option (Poll (IoResult CopyResult × List Recorded) × (A × R))
    → Option (RelayEnd A R)
unfolding shutdown
relayed wa wr polls none = none
relayed wa wr polls (some (ready (result, calls), (a, r))) =
    some (record { cancelled = false; calls = calls; padded = a; remote = r })
relayed wa wr polls (some (pending, (a, r))) = some (record {
  cancelled = true;
  calls = [];
  padded = shutdown wa polls.padded_shutdown a;
  remote = shutdown wr polls.remote_shutdown r;
})

pub data TunnelEnd (A R : Type 0) : Type 0 where
  uot_ended : UotOutcome → TunnelEnd A R
  relay_ended : RelayEnd A R → TunnelEnd A R
  failed : TunnelError → TunnelEnd A R
  rejected : TunnelEnd A R

unfoldable pub ended : {A R : Type 0} → Option (RelayEnd A R) → Option (TunnelEnd A R)
ended none = none
ended (some e) = some (relay_ended e)

-- Where the socket of UDP over TCP was connected, and where datagrams were sent to.
unfoldable pub sent_dials : {D : Type 0} → List (Option SocketAddr × List ℕ) → List (Dial D)
sent_dials [] = []
sent_dials ((some dest, payload) ∷ sent) = datagram dest ∷ sent_dials sent
sent_dials ((none, payload) ∷ sent) = sent_dials sent

unfoldable pub relay_dials : {D : Type 0} → Option UotRelay → List (Dial D)
unfolding sent_dials
relay_dials none = []
relay_dials (some s) = sent_dials s.sent

unfoldable pub uot_dials : {D : Type 0} → UotOutcome → List (Dial D)
unfolding relay_dials
uot_dials (request_failed e) = []
uot_dials no_socket = []
uot_dials (not_connected dest) = datagram dest ∷ []
uot_dials (ran none o) = relay_dials o
uot_dials (ran (some dest) o) = datagram dest ∷ relay_dials o

-- The timer and the size of the buffers are those of the relay.
module _ {A R S : Type 0} (ra : AsyncRead A) (wa : AsyncWrite A) (rr : AsyncRead R)
    (wr : AsyncWrite R) (sleep : Sleep S) (idle : S) (buffer_size : ℕ) where
  unfoldable pub relay : Polls → ℕ → A → R → Option (RelayEnd A R)
  unfolding relayed copy_bidirectional_with_stats
  relay polls user_id padded remote = relayed wa wr polls (
      copy_bidirectional_with_stats ra wa rr wr sleep polls.relaying padded remote idle buffer_size
        (some user_id) false)

module _ {A R D S : Type 0} (ra : AsyncRead A) (wa : AsyncWrite A) (rr : AsyncRead R)
    (wr : AsyncWrite R) (sleep : Sleep S) (idle : S) (buffer_size : ℕ) (net : Network D R) where
  unfoldable pub connected :
      Polls → ℕ → A → List (Dial D) × Remote R → List (Dial D) × Option (TunnelEnd A R)
  unfolding relay ended
  connected polls user_id padded (dials, reached r) =
      (dials, ended (relay ra wa rr wr sleep idle buffer_size polls user_id padded r))
  connected polls user_id padded (dials, not_reached e) = (dials, some (failed e))

  unfoldable pub by_route :
      Polls → ℕ → A → Address → OutboundType D → List (Dial D) × Option (TunnelEnd A R)
  unfolding connected direct_connect proxy_connect
  by_route polls user_id padded target (direct resolved dialer) =
      connected polls user_id padded (direct_connect net target resolved dialer)
  by_route polls user_id padded target (proxy handler) =
      connected polls user_id padded (proxy_connect net target handler)
  by_route polls user_id padded target reject = ([], some rejected)

  unfoldable pub uot_tunnel : Polls → UotVersion → List (Dial D) × Option (TunnelEnd A R)
  unfolding handle_uot_stream uot_dials
  uot_tunnel polls version =
      let outcome =
        handle_uot_stream net.text net.dns_cache net.sockets version polls.client_bytes
          polls.uot_events in
      (uot_dials outcome, some (uot_ended outcome))

  -- process_tunnel behind the registration.
  unfoldable pub tunnel :
      Polls → ℕ → A → Address → OutboundType D → List (Dial D) × Option (TunnelEnd A R)
  unfolding by_route uot_tunnel detect_uot host
  tunnel polls user_id padded target outbound_type = elim (detect_uot (host net.printing target)) [
    | some version ↦ uot_tunnel polls version
    | none ↦ by_route polls user_id padded target outbound_type
  ]

  -- `process_tunnel` at the time `now`. `meanwhile` is what other connections do to the registry. The
  -- last component has the user whose request is recorded.
  unfoldable pub process_tunnel :
      (ConnectionManager → ConnectionManager)
      → Polls
      → ConnectionManager
      → ℕ
      → SocketAddr
      → ℕ
      → A
      → Address
      → OutboundType D
      → (List (Dial D) × Option (TunnelEnd A R)) × (ConnectionManager × List ℕ)
  unfolding register unregister tunnel
  process_tunnel meanwhile polls manager now peer_addr user_id padded target outbound_type =
      let ((conn_id, token), registered) = register manager user_id peer_addr now in
      (
        tunnel polls user_id padded target outbound_type,
        (unregister (meanwhile registered) conn_id, user_id ∷ []),
      )
