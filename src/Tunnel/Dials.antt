-- ===== src/Tunnel/Dials.antt =====
-- Where the connections of a tunnel go, and the registry behind it.
use server_naive_rs.Common.{
  ℕ, ◌≡◌, refl, sym, ap, ◌∙◌, true, false, List, [], ◌∷◌, Option, none, some, All, map, subst,
  if◌then◌else◌,
}
use server_naive_rs.Stream.{AsyncRead, AsyncWrite}
use server_naive_rs.IpFilter.{Ipv4Addr, Ipv6Addr}
use server_naive_rs.Address.{
  IpAddr, v4, v6, SocketAddr, Address, ipv4, ipv6, domain, is_domain, Printing, host,
}
use server_naive_rs.Dns.{DnsCache}
use server_naive_rs.Dns.Check.{candidates, IsPublic}
use server_naive_rs.Router.{OutboundHandler, OutboundType, direct}
use server_naive_rs.Router.Safety.{IsSafe, acl_route-IsSafe}
use server_naive_rs.Router.Acl
use server_naive_rs.Router.Acl.{AclRouter}
use server_naive_rs.Connect.{connect_direct}
use server_naive_rs.Connect.Targets.{
  first_v4, first_v6, resolve_info_from_ips_lem, connect_direct-IsPublic,
}
use server_naive_rs.Connection.{ConnectionManager, register}
use server_naive_rs.Connection.Agreement.{IsConsistent, Left, unregister_lem}
use server_naive_rs.Uot.{UotVersion}
use server_naive_rs.Uot.Relaying.{
  handle_uot_stream, UotRelay, UotOutcome, request_failed, no_socket, not_connected, ran,
}
use server_naive_rs.Uot.Relaying.Outcome.{UotGood, handle_uot_stream-UotGood}
use server_naive_rs.Relay.Bidirectional.{Sleep}
use server_naive_rs.Tunnel.{
  acl_addr, Dial, through, socket, datagram, sent_dials, relay_dials, uot_dials, uot_tunnel,
  uot_ended, relay_ended, failed, rejected, Remote, reached, not_reached, Network, direct_connect,
  Polls, connected, TunnelEnd, by_route, tunnel, process_tunnel, detect_uot,
}

-- A dialer gets public addresses only; without any it gets a literal that is public.
abbrev pub IsPublicDial : {D : Type 0} → DnsCache → Address → Dial D → Type 0
IsPublicDial cache target (socket addr) = IsPublic addr.ip
IsPublicDial cache target (datagram addr) = ⊥
IsPublicDial cache target (through handler addr) = elim addr.resolve_info [
  | none ↦ (is_domain target ≡ false) × All IsPublic (candidates cache target)
  | some info ↦
      ((ip : Ipv4Addr) → info.ipv4 ≡ some ip → IsPublic (v4 ip))
      × ((ip : Ipv6Addr) → info.ipv6 ≡ some ip → IsPublic (v6 ip))
]

first_v4-IsPublic :
    (ips : List IpAddr) (ip : Ipv4Addr)
    → All IsPublic ips
    → first_v4 ips ≡ some ip
    → IsPublic (v4 ip)
first_v4-IsPublic [] ip h e = cc
first_v4-IsPublic (v4 x ∷ ips) ip h e = cc h.0
first_v4-IsPublic (v6 x ∷ ips) ip h e = first_v4-IsPublic ips ip h.1 e

first_v6-IsPublic :
    (ips : List IpAddr) (ip : Ipv6Addr)
    → All IsPublic ips
    → first_v6 ips ≡ some ip
    → IsPublic (v6 ip)
first_v6-IsPublic [] ip h e = cc
first_v6-IsPublic (v4 x ∷ ips) ip h e = first_v6-IsPublic ips ip h.1 e
first_v6-IsPublic (v6 x ∷ ips) ip h e = cc h.0

abbrev listed : Option (List IpAddr) → List IpAddr
listed none = []
listed (some ips) = ips

info-IsPublicDial :
    {D : Type 0} (p : Printing) (cache : DnsCache) (handler : OutboundHandler D) (target : Address)
    (resolved : Option (List IpAddr))
    → IsSafe cache target resolved
    → IsPublicDial cache target (through handler (acl_addr p target resolved))
unfolding acl_addr
info-IsPublicDial p cache handler target none safe = (literal target safe.checked, safe.public)
  where
    literal :
        (t : Address)
        → none ≡ (if is_domain t then some (candidates cache t) else none)
        → is_domain t ≡ false
    literal (ipv4 ip n) e = refl
    literal (ipv6 ip n) e = refl
    literal (domain name n) e = cc
info-IsPublicDial p cache handler target (some ips) safe =
    let both = resolve_info_from_ips_lem ips in
    (
      λ ip e.
          first_v4-IsPublic ips ip (checked_public target safe.checked safe.public)
            (sym both.0 ∙ e),
      λ ip e.
          first_v6-IsPublic ips ip (checked_public target safe.checked safe.public)
            (sym both.1 ∙ e),
    )
  where
    checked_public :
        (t : Address)
        → some ips ≡ (if is_domain t then some (candidates cache t) else none)
        → All IsPublic (candidates cache t)
        → All IsPublic ips
    checked_public (ipv4 ip n) e h = cc
    checked_public (ipv6 ip n) e h = cc
    checked_public (domain name n) e h = subst (All IsPublic) (sym (ap listed e)) h

sockets-IsPublicDial :
    (D : Type 0) (cache : DnsCache) (target : Address) (tried : List SocketAddr)
    → All (λ (sa : SocketAddr). IsPublic sa.ip) tried
    → All (IsPublicDial {D = D} cache target) (map socket tried)
sockets-IsPublicDial D cache target [] h = tt
sockets-IsPublicDial D cache target (sa ∷ tried) h =
    (h.0, sockets-IsPublicDial D cache target tried h.1)

abbrev pub IsDatagram : {D : Type 0} → Dial D → Type 0
IsDatagram {D} dial = (addr : SocketAddr) × (◌≡◌ {A = Dial D} dial (datagram addr))

sent_dials-IsDatagram :
    (D : Type 0) (sent : List (Option SocketAddr × List ℕ))
    → All (IsDatagram {D = D}) (sent_dials sent)
unfolding sent_dials
sent_dials-IsDatagram D [] = tt
sent_dials-IsDatagram D ((some dest, payload) ∷ sent) = ((dest, refl), sent_dials-IsDatagram D sent)
sent_dials-IsDatagram D ((none, payload) ∷ sent) = sent_dials-IsDatagram D sent

relay_dials-IsDatagram :
    (D : Type 0) (o : Option UotRelay) → All (IsDatagram {D = D}) (relay_dials o)
unfolding relay_dials
relay_dials-IsDatagram D none = tt
relay_dials-IsDatagram D (some s) = sent_dials-IsDatagram D s.sent

uot_dials-IsDatagram :
    (D : Type 0) (outcome : UotOutcome) → All (IsDatagram {D = D}) (uot_dials outcome)
unfolding uot_dials
uot_dials-IsDatagram D (request_failed e) = tt
uot_dials-IsDatagram D no_socket = tt
uot_dials-IsDatagram D (not_connected dest) = ((dest, refl), tt)
uot_dials-IsDatagram D (ran none o) = relay_dials-IsDatagram D o
uot_dials-IsDatagram D (ran (some dest) o) = ((dest, refl), relay_dials-IsDatagram D o)

-- A stream of UDP over TCP that has ended as such a stream may, and has used its datagram socket only.
abbrev pub UotKept :
    {A R D : Type 0}
    → Network D R
    → Polls
    → UotVersion
    → List (Dial D) × Option (TunnelEnd A R)
    → Type 0
UotKept net polls version (dials, some (uot_ended outcome)) =
    All IsDatagram dials
    × UotGood net.text net.dns_cache net.sockets version polls.client_bytes polls.uot_events outcome
UotKept net polls version (dials, some (relay_ended e)) = ⊥
UotKept net polls version (dials, some (failed e)) = ⊥
UotKept net polls version (dials, some rejected) = ⊥
UotKept net polls version (dials, none) = ⊥

-- What holds of a tunnel, by what the name of its target is taken for.
abbrev pub ByName :
    {A R D : Type 0}
    → Network D R
    → Polls
    → Option UotVersion
    → (List (Dial D) × Option (TunnelEnd A R) → Type 0)
    → List (Dial D) × Option (TunnelEnd A R)
    → Type 0
ByName net polls (some version) P o = UotKept net polls version o
ByName net polls none P o = P o

module _ {A R D S : Type 0} (ra : AsyncRead A) (wa : AsyncWrite A) (rr : AsyncRead R)
    (wr : AsyncWrite R) (sleep : Sleep S) (idle : S) (buffer_size : ℕ) (net : Network D R) where
  pub uot_tunnel-UotKept :
      (polls : Polls) (version : UotVersion)
      → UotKept net polls version (uot_tunnel ra wa rr wr sleep idle buffer_size net polls version)
  unfolding uot_tunnel
  uot_tunnel-UotKept polls version = (
    uot_dials-IsDatagram D (
        handle_uot_stream net.text net.dns_cache net.sockets version polls.client_bytes
          polls.uot_events),
    handle_uot_stream-UotGood net.text net.dns_cache net.sockets version polls.client_bytes
        polls.uot_events,
  )

  pub tunnel-ByName :
      (polls : Polls) (user_id : ℕ) (padded : A) (target : Address) (outbound : OutboundType D)
      (P : List (Dial D) × Option (TunnelEnd A R) → Type 0)
      → P (by_route ra wa rr wr sleep idle buffer_size net polls user_id padded target outbound)
      → ByName net polls
          (detect_uot (host net.printing target))
          P
          (tunnel ra wa rr wr sleep idle buffer_size net polls user_id padded target outbound)
  unfolding tunnel
  tunnel-ByName polls user_id padded target outbound P h =
      go (detect_uot (host net.printing target))
    where
      go :
          (o : Option UotVersion)
          → ByName net polls o P (elim o [
            | some version ↦ uot_tunnel ra wa rr wr sleep idle buffer_size net polls version
            | none ↦
                by_route ra wa rr wr sleep idle buffer_size net polls user_id padded target outbound
          ])
      go (some version) = uot_tunnel-UotKept polls version
      go none = h

module _ {A R D S : Type 0} (ra : AsyncRead A) (wa : AsyncWrite A) (rr : AsyncRead R)
    (wr : AsyncWrite R) (sleep : Sleep S) (idle : S) (buffer_size : ℕ) (net : Network D R)
    (self : AclRouter D) (target : Address) where
  abbrev pub PublicDials : Polls → List (Dial D) × Option (TunnelEnd A R) → Type 0
  PublicDials polls o =
      ByName net polls (detect_uot (host net.printing target))
        (λ (dials, end). All (IsPublicDial self.dns_cache target) dials) o

  pub connected_dials :
      (polls : Polls) (user_id : ℕ) (padded : A) (dials : List (Dial D)) (o : Remote R)
      → (connected ra wa rr wr sleep idle buffer_size net polls user_id padded (dials, o)).0 ≡ dials
  unfolding connected
  connected_dials polls user_id padded dials (reached r) = refl
  connected_dials polls user_id padded dials (not_reached e) = refl

  module _ (resolved : Option (List IpAddr)) (dialer : Option (OutboundHandler D))
      (blocks : self.block_private_ip ≡ true)
      (routed : Acl.route self target ≡ direct resolved dialer) where
    direct_connect-public :
        (d : Option (OutboundHandler D))
        → All (IsPublicDial self.dns_cache target) (direct_connect net target resolved d).0
    unfolding direct_connect
    direct_connect-public (some handler) = (
      info-IsPublicDial net.printing self.dns_cache handler target resolved
          (acl_route-IsSafe self target resolved dialer blocks routed),
      tt,
    )
    direct_connect-public none =
        sockets-IsPublicDial D self.dns_cache target
          (connect_direct net.connect net.dns_cache target resolved).0
          (connect_direct-IsPublic self net.connect net.dns_cache target resolved dialer blocks
            routed)

    pub tunnel-PublicDials :
        (polls : Polls) (user_id : ℕ) (padded : A)
        → PublicDials polls (
            tunnel ra wa rr wr sleep idle buffer_size net polls user_id padded target
              (direct resolved dialer))
    unfolding by_route
    tunnel-PublicDials polls user_id padded =
        tunnel-ByName ra wa rr wr sleep idle buffer_size net polls user_id padded target
          (direct resolved dialer) (λ (dials, end). All (IsPublicDial self.dns_cache target) dials)
          (subst (All (IsPublicDial self.dns_cache target))
            (sym (
              connected_dials polls user_id padded (direct_connect net target resolved dialer).0
                (direct_connect net target resolved dialer).1))
            (direct_connect-public dialer))

    -- Where the ACL router blocks private addresses and makes the target direct, whatever the other
    -- connections do to the registry in the meantime, as long as they leave it consistent: unless the
    -- target is a magic name of UDP over TCP, every connection that the tunnel tries, whether its relay
    -- ends or not, goes to an address that the filter passes, through a dialer too, which gets the
    -- addresses checked or a literal; for a magic name only datagrams are sent, of whose
    -- addresses nothing is said, and the stream ends as one of UDP over TCP may. The request is recorded
    -- once for the user;
    -- and behind the tunnel its connection is out of the registry and the others are as they were.
    pub process_tunnel-PublicDials :
        (meanwhile : ConnectionManager → ConnectionManager) (polls : Polls)
        (manager : ConnectionManager) (now : ℕ) (peer_addr : SocketAddr) (user_id : ℕ) (padded : A)
        → IsConsistent (meanwhile (register manager user_id peer_addr now).1)
        → let (ids, registered) = register manager user_id peer_addr now in
          let (result, (after, requests)) =
            process_tunnel ra wa rr wr sleep idle buffer_size net meanwhile polls manager now
              peer_addr user_id padded target
              (direct resolved dialer) in
          PublicDials polls result
          × Left (meanwhile registered) ids.0 after
          × (requests ≡ user_id ∷ [])
    unfolding process_tunnel
    process_tunnel-PublicDials meanwhile polls manager now peer_addr user_id padded v = (
      tunnel-PublicDials polls user_id padded,
      unregister_lem (meanwhile (register manager user_id peer_addr now).1) v
          (register manager user_id peer_addr now).0.0,
      refl,
    )
