-- ===== src/Dns.antt =====
-- core/dns.rs: resolution of a target, and the check of what it resolves to. The DNS cache is a
-- package of its own: a parameter.
pub mod Check
use server_naive_rs.Common.{
  ℕ, ◌≡◌, Bool, true, false, List, [], ◌∷◌, ◌++◌, Option, none, some, if◌then◌else◌,
}
use server_naive_rs.Stream.{IoError, timed_out, invalid_input, IoResult, ok, err}
use server_naive_rs.IpFilter.{is_private_ipv4, is_private_ipv6}
use server_naive_rs.Address.{IpAddr, v4, v6, SocketAddr, Address, ipv4, ipv6, domain}

-- dns_cache_rs::DnsError, without the texts.
pub data DnsError : Type 0 where
  not_found timeout invalid_host other : DnsError

pub data DnsResult : Type 0 where
  found : List SocketAddr → DnsResult
  failed : DnsError → DnsResult

pub record DnsCache : Type 0 where
  pub resolve_with_port_iter : List ℕ → ℕ → DnsResult

unfoldable pub dns_error_to_io : DnsError → IoError
dns_error_to_io DnsError.not_found = IoError.not_found
dns_error_to_io DnsError.timeout = timed_out
dns_error_to_io DnsError.invalid_host = invalid_input
dns_error_to_io DnsError.other = IoError.other

unfoldable pub first_found : DnsResult → IoResult SocketAddr
unfolding dns_error_to_io
first_found (failed e) = err (dns_error_to_io e)
first_found (found []) = err IoError.not_found
first_found (found (sa ∷ rest)) = ok sa

unfoldable pub resolve_socket_addr : DnsCache → Address → IoResult SocketAddr
unfolding first_found
resolve_socket_addr cache (ipv4 ip port) = ok (record { ip = v4 ip; port = port })
resolve_socket_addr cache (ipv6 ip port) = ok (record { ip = v6 ip; port = port })
resolve_socket_addr cache (domain host port) = first_found (cache.resolve_with_port_iter host port)

unfoldable pub is_private_ip : IpAddr → Bool
is_private_ip (v4 ip) = is_private_ipv4 ip
is_private_ip (v6 ip) = is_private_ipv6 ip

-- The loop over what was found, with the public addresses so far.
unfoldable pub scan : List SocketAddr → List IpAddr → Bool × Option (List IpAddr)
scan [] [] = (false, none)
scan [] (ip ∷ public) = (false, some (ip ∷ public))
scan (sa ∷ rest) public =
    if is_private_ip sa.ip then (true, none) else scan rest (public ++ sa.ip ∷ [])

unfoldable pub scan_result : DnsResult → Bool × Option (List IpAddr)
scan_result (failed e) = (false, none)
scan_result (found sas) = scan sas []

unfoldable pub check_private_and_resolve : DnsCache → Address → Bool × Option (List IpAddr)
unfolding is_private_ip scan_result
check_private_and_resolve cache (ipv4 ip port) = (is_private_ipv4 ip, none)
check_private_and_resolve cache (ipv6 ip port) = (is_private_ipv6 ip, none)
check_private_and_resolve cache (domain host port) =
    scan_result (cache.resolve_with_port_iter host port)
