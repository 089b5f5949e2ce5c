-- ===== src/Connect/Tests.antt =====
-- Runs of the filter, the routers and the connections, and their theorems at them.
use server_naive_rs.Common.{
  ℕ, ◌≡◌, refl, arith, true, false, ◌||◌, ◌==◌, [], ◌∷◌, none, some, if◌then◌else◌,
}
use server_naive_rs.Stream.{not_found, other, ok}
use server_naive_rs.IpFilter.{Ipv4Addr, Ipv6Addr, is_private_ipv4, to_ipv6_mapped}
use server_naive_rs.IpFilter.Ranges.{is_blocked, to_bits, is_private_ipv4_ranges}
use server_naive_rs.Address.{v4, v6, SocketAddr, Address, ipv4, ipv6, domain}
use server_naive_rs.Dns.{DnsCache, found, check_private_and_resolve, scan}
use server_naive_rs.Dns.Check.{candidates, any_private}
use server_naive_rs.Router.{direct, reject}
use server_naive_rs.Router.Direct
use server_naive_rs.Router.Direct.{DirectRouter}
use server_naive_rs.Router.Acl
use server_naive_rs.Router.Acl.{
  AclRouter, direct_decision, decide, route_addr_with_resolved, route_unblocked, match_host, get,
}
use server_naive_rs.Router.Safety.{IsSafe, direct_route_lem, acl_route-IsSafe}
use server_naive_rs.Connect.{
  outcome, Attempt, connected, refused, elapsed, socket_addr, connect_direct, connect_ip_list,
}
use server_naive_rs.Connect.Targets.{Ends, connect_ip_list-Ends}
use server_naive_rs.Connect.Mapped.{mapped_reaches_blocked}

abbrev localhost : Ipv4Addr
localhost = record { a = 127; b = 0; c = 0; d = 1 }

abbrev public_ip : Ipv4Addr
public_ip = record { a = 93; b = 184; c = 216; d = 34 }

abbrev other_ip : Ipv4Addr
other_ip = record { a = 8; b = 8; c = 8; d = 8 }

abbrev global6 : Ipv6Addr
global6 = record {
  s0 = 0x2001;
  s1 = 0x4860;
  s2 = 0x4860;
  s3 = 0;
  s4 = 0;
  s5 = 0;
  s6 = 0;
  s7 = 0x8888;
}

-- Every name resolves to two addresses.
abbrev two_addresses : DnsCache
two_addresses = record {
  resolve_with_port_iter =
      λ host p. found (socket_addr p (v4 public_ip) ∷ socket_addr p (v4 other_ip) ∷ []);
}

abbrev direct_router : DirectRouter
direct_router = record { block_private_ip = true; dns_cache = two_addresses }

abbrev acl_router : AclRouter ℕ
acl_router = record {
  engine = record { compiled = λ addr. none; outbounds = ("direct", direct 7 true) ∷ [] };
  block_private_ip = true;
  dns_cache = two_addresses;
}

abbrev example_com : Address
example_com = domain (b'a' ∷ []) 443

-- Only the second address answers.
abbrev second_answers : SocketAddr → Attempt ℕ
second_answers sa = elim sa.ip [
  | v4 ip ↦ (if ip.a == 8 then connected 5 else elapsed)
  | v6 ip ↦ refused not_found
]

loopback_blocked : is_private_ipv4 localhost ≡ true
unfolding is_private_ipv4
loopback_blocked = refl

acl_routes :
    Acl.route acl_router example_com
    ≡ direct (some (v4 public_ip ∷ v4 other_ip ∷ [])) (some (direct 7 true))
unfolding Acl.route check_private_and_resolve is_private_ipv4 scan
acl_routes = refl

direct_routes :
    Direct.route {D = ℕ} direct_router example_com
    ≡ direct (some (v4 public_ip ∷ v4 other_ip ∷ [])) none
unfolding Direct.route check_private_and_resolve is_private_ipv4 scan
direct_routes = refl

is_private_ipv4_ranges_example : is_private_ipv4 localhost ≡ is_blocked (to_bits localhost)
is_private_ipv4_ranges_example = is_private_ipv4_ranges localhost (omega arith)

direct_route_lem_example : Direct.route {D = ℕ} direct_router (ipv4 localhost 80) ≡ (
    if any_private (candidates two_addresses (ipv4 localhost 80)) || false
    then reject
    else direct none none)
direct_route_lem_example = direct_route_lem direct_router (ipv4 localhost 80) refl

acl_route-IsSafe_example : IsSafe two_addresses example_com (some (v4 public_ip ∷ v4 other_ip ∷ []))
acl_route-IsSafe_example =
    acl_route-IsSafe acl_router example_com (some (v4 public_ip ∷ v4 other_ip ∷ []))
      (some (direct 7 true)) refl acl_routes

second_reached :
    connect_ip_list second_answers (v4 public_ip ∷ v4 other_ip ∷ []) 443
    ≡ (socket_addr 443 (v4 public_ip) ∷ socket_addr 443 (v4 other_ip) ∷ [], ok 5)
unfolding connect_ip_list outcome
second_reached = refl

mapped_reaches_blocked_example :
    (Direct.route {D = ℕ} direct_router (ipv4 localhost 80) ≡ reject)
    × (Direct.route {D = ℕ} direct_router (ipv6 (to_ipv6_mapped localhost) 80) ≡ direct none none)
    × ((connect_direct second_answers two_addresses (ipv6 (to_ipv6_mapped localhost) 80) none).0
        ≡ socket_addr 80 (v6 (to_ipv6_mapped localhost)) ∷ [])
mapped_reaches_blocked_example =
    mapped_reaches_blocked direct_router second_answers localhost 80 refl loopback_blocked

connect_ip_list-Ends_example :
    Ends second_answers 443
      (v4 public_ip ∷ v4 other_ip ∷ [])
      other
      (connect_ip_list second_answers (v4 public_ip ∷ v4 other_ip ∷ []) 443)
connect_ip_list-Ends_example =
    connect_ip_list-Ends second_answers 443 (v4 public_ip ∷ v4 other_ip ∷ [])
