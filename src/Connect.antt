-- ===== src/Connect.antt =====
-- handler.rs: how a plain direct connection is made. `connect` is what the operating system makes
-- of one attempt within the timeout, a parameter; each function also returns its attempts in order.
pub mod Targets
pub mod Mapped
mod Tests
use server_naive_rs.Common.{ℕ, List, [], ◌∷◌, ◌++◌, Option, none, some}
use server_naive_rs.Stream.{IoError, timed_out, other, IoResult, ok, err}
use server_naive_rs.IpFilter.{Ipv4Addr, Ipv6Addr}
use server_naive_rs.Address.{IpAddr, v4, v6, SocketAddr, Address, port}
use server_naive_rs.Dns.{DnsCache, resolve_socket_addr}

-- `tokio::time::timeout(timeout, TcpStream::connect(addr))`.
pub data Attempt (S : Type 0) : Type 0 where
  connected : S → Attempt S
  refused : IoError → Attempt S
  elapsed : Attempt S

unfoldable pub outcome : {S : Type 0} → Attempt S → IoResult S
outcome (connected s) = ok s
outcome (refused e) = err e
outcome elapsed = err timed_out

abbrev pub Log : Type 0 → Type 0
Log S = List SocketAddr × IoResult S

abbrev pub socket_addr : ℕ → IpAddr → SocketAddr
socket_addr port ip = record { ip = ip; port = port }

unfoldable pub unwrap_or_none : Option IoError → IoError
unwrap_or_none none = other
unwrap_or_none (some e) = e

-- acl::ResolveInfo: one address of each family at most.
pub record ResolveInfo : Type 0 where
  pub ipv4 : Option Ipv4Addr
  pub ipv6 : Option Ipv6Addr

-- `info.ipv4 = Some(v4)` where it is none.
unfoldable pub or_else : {A : Type 0} → Option A → A → Option A
or_else none a = some a
or_else (some b) a = some b

unfoldable pub resolve_info_loop : List IpAddr → ResolveInfo → ResolveInfo
unfolding or_else
resolve_info_loop [] info = info
resolve_info_loop (v4 ip ∷ ips) info =
    resolve_info_loop ips (record info { ipv4 = or_else info.ipv4 ip })
resolve_info_loop (v6 ip ∷ ips) info =
    resolve_info_loop ips (record info { ipv6 = or_else info.ipv6 ip })

unfoldable pub resolve_info_from_ips : List IpAddr → ResolveInfo
unfolding resolve_info_loop
resolve_info_from_ips ips = resolve_info_loop ips (record { ipv4 = none; ipv6 = none })

module _ {S : Type 0} (connect : SocketAddr → Attempt S) where
  unfoldable pub connect_one : SocketAddr → Log S
  unfolding outcome
  connect_one addr = (addr ∷ [], outcome (connect addr))

  -- The loop, with the last error so far.
  unfoldable pub connect_loop : ℕ → List IpAddr → Option IoError → Log S
  unfolding unwrap_or_none
  connect_loop port [] last_err = ([], err (unwrap_or_none last_err))
  connect_loop port (ip ∷ ips) last_err = elim (outcome (connect (socket_addr port ip))) [
    | ok s ↦ (socket_addr port ip ∷ [], ok s)
    | err e ↦
        let (tried, result) = connect_loop port ips (some e) in
        (socket_addr port ip ∷ tried, result)
  ]

  unfoldable pub connect_ip_list : List IpAddr → ℕ → Log S
  unfolding connect_loop
  connect_ip_list ips port = connect_loop port ips none

  unfoldable pub connect_resolved : IoResult SocketAddr → Log S
  unfolding connect_one
  connect_resolved (err e) = ([], err e)
  connect_resolved (ok addr) = connect_one addr

  -- The target's own address, or what it resolves to, where the router has resolved nothing.
  unfoldable pub connect_direct : DnsCache → Address → Option (List IpAddr) → Log S
  unfolding connect_ip_list connect_resolved
  connect_direct cache target none = connect_resolved (resolve_socket_addr cache target)
  connect_direct cache target (some []) = connect_resolved (resolve_socket_addr cache target)
  connect_direct cache target (some (ip ∷ ips)) = connect_ip_list (ip ∷ ips) (port target)
