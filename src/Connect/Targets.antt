-- ===== src/Connect/Targets.antt =====
-- Where connections go.
use server_naive_rs.Common.{
  ℕ, ◌≡◌, refl, arith, true, false, List, [], ◌∷◌, Option, none, some, All, inl, inr, ◌≢◌, ◌⊎◌,
}
use server_naive_rs.Stream.{IoError, other, ok, err, IoResult-cases}
use server_naive_rs.IpFilter.{Ipv4Addr, Ipv6Addr}
use server_naive_rs.Address.{
  IpAddr, v4, v6, SocketAddr, Address, ipv4, ipv6, domain, is_domain, port,
}
use server_naive_rs.Dns.{DnsCache, resolve_socket_addr}
use server_naive_rs.Dns.Check.{candidates, IsPublic}
use server_naive_rs.Router.{OutboundHandler, direct}
use server_naive_rs.Router.Safety.{IsSafe, acl_route-IsSafe}
use server_naive_rs.Router.Acl
use server_naive_rs.Router.Acl.{AclRouter}
use server_naive_rs.Connect.{
  Attempt, outcome, Log, socket_addr, unwrap_or_none, connect_loop, connect_ip_list,
  connect_resolved, connect_direct, ResolveInfo, or_else, resolve_info_loop, resolve_info_from_ips,
}

-- How the attempts on a list of addresses end: at the first that is made, or with all failed and
-- the last error, which is `last` where there was no attempt.
abbrev pub Ends :
    {S : Type 0} → (SocketAddr → Attempt S) → ℕ → List IpAddr → IoError → Log S → Type 0
Ends connect p [] last log = log ≡ ([], err last)
Ends {S} connect p (ip ∷ ips) last log =
    ((s : S) × (outcome (connect (socket_addr p ip)) ≡ ok s)
      × (log ≡ (socket_addr p ip ∷ [], ok s)))
    ⊎ ((e : IoError) × (rest : Log S) × (outcome (connect (socket_addr p ip)) ≡ err e)
        × Ends connect p ips e rest
        × (log ≡ (socket_addr p ip ∷ rest.0, rest.1)))

module _ {S : Type 0} (connect : SocketAddr → Attempt S) (p : ℕ) where
  connect_loop-Ends :
      (ips : List IpAddr) (last : Option IoError)
      → Ends connect p ips (unwrap_or_none last) (connect_loop connect p ips last)
  unfolding connect_loop
  connect_loop-Ends [] last = refl
  connect_loop-Ends (ip ∷ ips) last = elim (IoResult-cases (outcome (connect (socket_addr p ip)))) [
    | inl (s, e) ↦ inl (s, e, rw (e, connect_loop))
    | inr (x, e) ↦ inr (
      x,
      connect_loop connect p ips (some x),
      e,
      connect_loop-Ends ips (some x),
      rw (e, connect_loop),
    )
  ]

  -- `connect_ip_list` tries the addresses in order, each at most once, returns the first connection
  -- made and stops there; if all fail it returns the last error.
  pub connect_ip_list-Ends :
      (ips : List IpAddr) → Ends connect p ips other (connect_ip_list connect ips p)
  unfolding connect_ip_list unwrap_or_none
  connect_ip_list-Ends ips = connect_loop-Ends ips none

  Ends-IsPublic :
      (ips : List IpAddr) (last : IoError) (log : Log S)
      → All IsPublic ips
      → Ends connect p ips last log
      → All (λ (sa : SocketAddr). IsPublic sa.ip) log.0
  Ends-IsPublic [] last log h e = rw e tt
  Ends-IsPublic (ip ∷ ips) last log h (inl (s, o, e)) = rw e (h.0, tt)
  Ends-IsPublic (ip ∷ ips) last log h (inr (x, rest, o, ends, e)) =
      rw e (h.0, Ends-IsPublic ips x rest h.1 ends)

-- The first candidate of a literal is the one that it is resolved to.
literal-IsPublic :
    {S : Type 0} (connect : SocketAddr → Attempt S) (cache : DnsCache) (target : Address)
    → is_domain target ≡ false
    → All IsPublic (candidates cache target)
    → All
        (λ (sa : SocketAddr). IsPublic sa.ip)
        (connect_resolved connect (resolve_socket_addr cache target)).0
unfolding connect_resolved resolve_socket_addr candidates
literal-IsPublic connect cache (ipv4 ip p) l h = h
literal-IsPublic connect cache (ipv6 ip p) l h = h
literal-IsPublic connect cache (domain host p) l h = cc

checked-IsPublic :
    {S : Type 0} (connect : SocketAddr → Attempt S) (later : DnsCache) (target : Address)
    (ips : List IpAddr)
    → ips ≢ []
    → All IsPublic ips
    → All (λ (sa : SocketAddr). IsPublic sa.ip) (connect_direct connect later target (some ips)).0
unfolding connect_direct
checked-IsPublic connect later target [] known h = absurd (known refl)
checked-IsPublic connect later target (ip ∷ ips) known h =
    Ends-IsPublic connect (port target) (ip ∷ ips) other _ h
      (connect_ip_list-Ends connect (port target) (ip ∷ ips))

-- Where the ACL router blocks private addresses and makes a target direct, no attempt of
-- `connect_direct` with what the router resolved goes to an address that the filter blocks,
-- whatever a later lookup of the name would give.
pub connect_direct-IsPublic :
    {D S : Type 0} (self : AclRouter D) (connect : SocketAddr → Attempt S) (later : DnsCache)
    (target : Address) (resolved : Option (List IpAddr)) (dialer : Option (OutboundHandler D))
    → self.block_private_ip ≡ true
    → Acl.route self target ≡ direct resolved dialer
    → All (λ (sa : SocketAddr). IsPublic sa.ip) (connect_direct connect later target resolved).0
unfolding connect_direct candidates
connect_direct-IsPublic self connect later target resolved dialer h r =
    go target resolved (acl_route-IsSafe self target resolved dialer h r)
  where
    go :
        (t : Address) (o : Option (List IpAddr))
        → IsSafe self.dns_cache t o
        → All (λ (sa : SocketAddr). IsPublic sa.ip) (connect_direct connect later t o).0
    go (ipv4 ip p) o safe =
        rw safe.checked (literal-IsPublic connect later (ipv4 ip p) refl safe.public)
    go (ipv6 ip p) o safe =
        rw safe.checked (literal-IsPublic connect later (ipv6 ip p) refl safe.public)
    go (domain host p) o safe = rw safe.checked (
        checked-IsPublic connect later (domain host p) (candidates self.dns_cache (domain host p))
          safe.known safe.public)

abbrev pub first_v4 : List IpAddr → Option Ipv4Addr
first_v4 [] = none
first_v4 (v4 ip ∷ ips) = some ip
first_v4 (v6 ip ∷ ips) = first_v4 ips

abbrev pub first_v6 : List IpAddr → Option Ipv6Addr
first_v6 [] = none
first_v6 (v4 ip ∷ ips) = first_v6 ips
first_v6 (v6 ip ∷ ips) = some ip

resolve_info_loop_lem :
    (ips : List IpAddr) (info : ResolveInfo)
    → let r = resolve_info_loop ips info in
      (r.ipv4 ≡ elim info.ipv4 [ none ↦ first_v4 ips | some ip ↦ some ip ])
      × (r.ipv6 ≡ elim info.ipv6 [ none ↦ first_v6 ips | some ip ↦ some ip ])
unfolding resolve_info_loop
resolve_info_loop_lem [] info = ground arith
resolve_info_loop_lem (v4 ip ∷ ips) info =
    ground (arith, resolve_info_loop_lem ips (record info { ipv4 = or_else info.ipv4 ip }))
resolve_info_loop_lem (v6 ip ∷ ips) info =
    ground (arith, resolve_info_loop_lem ips (record info { ipv6 = or_else info.ipv6 ip }))

-- A dialer is given the first address of each family, and none of a family that is not there.
pub resolve_info_from_ips_lem :
    (ips : List IpAddr)
    → ((resolve_info_from_ips ips).ipv4 ≡ first_v4 ips)
      × ((resolve_info_from_ips ips).ipv6 ≡ first_v6 ips)
unfolding resolve_info_from_ips
resolve_info_from_ips_lem ips = resolve_info_loop_lem ips (record { ipv4 = none; ipv6 = none })
