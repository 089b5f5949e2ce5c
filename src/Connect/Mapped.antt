-- ===== src/Connect/Mapped.antt =====
-- IPv4-mapped IPv6 addresses and the filter.
use server_naive_rs.Common.{ℕ, ◌≡◌, refl, true, [], ◌∷◌, none}
use server_naive_rs.IpFilter.{Ipv4Addr, is_private_ipv4, to_ipv6_mapped}
use server_naive_rs.IpFilter.Ranges.{mapped_not_blocked}
use server_naive_rs.Address.{v6, SocketAddr, ipv4, ipv6}
use server_naive_rs.Dns.{check_private_and_resolve, resolve_socket_addr}
use server_naive_rs.Router.{direct, reject, is_none}
use server_naive_rs.Router.Direct
use server_naive_rs.Router.Direct.{DirectRouter, route_checked}
use server_naive_rs.Connect.{Attempt, socket_addr, connect_direct, connect_resolved}

-- Under `block_private_ip` the direct router rejects an IPv4 address that the filter blocks, but
-- makes the IPv6 address that maps it direct, and `connect_direct` tries that address.
pub mapped_reaches_blocked :
    {D S : Type 0} (self : DirectRouter) (connect : SocketAddr → Attempt S) (ip : Ipv4Addr) (p : ℕ)
    → self.block_private_ip ≡ true
    → is_private_ipv4 ip ≡ true
    → (Direct.route {D = D} self (ipv4 ip p) ≡ reject)
      × (Direct.route {D = D} self (ipv6 (to_ipv6_mapped ip) p) ≡ direct none none)
      × ((connect_direct connect self.dns_cache (ipv6 (to_ipv6_mapped ip) p) none).0
          ≡ socket_addr p (v6 (to_ipv6_mapped ip)) ∷ [])
unfolding Direct.route route_checked check_private_and_resolve is_none connect_direct
    connect_resolved resolve_socket_addr
mapped_reaches_blocked self connect ip p h b = (rw (h, b), rw (h, mapped_not_blocked ip), refl)
