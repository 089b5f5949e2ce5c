-- ===== src/Router/Acl.antt =====
-- `AclEngine::match_host` and `AclRouter` of acl.rs.
use Prim.Native.String.{String}
use text.Mathlib.Text.{◌==◌ as str_eq}
use server_naive_rs.Common.{
  Bool, true, false, ◌&&◌, List, [], ◌∷◌, Option, none, some, if◌then◌else◌,
}
use server_naive_rs.Address.{IpAddr, Address, is_domain}
use server_naive_rs.Dns.{DnsCache, check_private_and_resolve}
use server_naive_rs.Router.{
  OutboundHandler, OutboundType, is_none, custom_dialer, direct, reject, proxy, socks5, http,
}

-- `compiled` is the compiled rule set at a target's host and port over TCP; how it reads the host's
-- text, and matches it, is the affair of acl-engine-rs.
pub record AclEngine (D : Type 0) : Type 0 where
  pub compiled : Address → Option (OutboundHandler D)
  pub outbounds : List (String × OutboundHandler D)

-- `HashMap::get`.
unfoldable pub get :
    {D : Type 0} → List (String × OutboundHandler D) → String → Option (OutboundHandler D)
get [] name = none
get ((n, handler) ∷ rest) name = if str_eq n name then some handler else get rest name

unfoldable pub match_host : {D : Type 0} → AclEngine D → Address → Option (OutboundHandler D)
unfolding get
match_host self addr = elim (self.compiled addr) [
  | some handler ↦ some handler
  | none ↦ get self.outbounds "direct"
]

pub record AclRouter (D : Type 0) : Type 0 where
  pub engine : AclEngine D
  pub block_private_ip : Bool
  pub dns_cache : DnsCache

unfoldable pub direct_decision :
    {D : Type 0}
    → AclRouter D
    → Address
    → Option (List IpAddr)
    → Option (OutboundHandler D)
    → OutboundType D
unfolding is_none
direct_decision self addr resolved dialer =
    if self.block_private_ip && is_none resolved && is_domain addr
    then reject
    else direct resolved dialer

unfoldable pub decide :
    {D : Type 0}
    → AclRouter D
    → Address
    → Option (List IpAddr)
    → Option (OutboundHandler D)
    → OutboundType D
unfolding direct_decision custom_dialer
decide self addr resolved none = direct_decision self addr resolved none
decide self addr resolved (some (direct d custom)) =
    direct_decision self addr resolved (custom_dialer (direct d custom))
decide self addr resolved (some (socks5 d udp)) = proxy (socks5 d udp)
decide self addr resolved (some (http d)) = proxy (http d)
decide self addr resolved (some (reject d)) = reject

unfoldable pub route_addr_with_resolved :
    {D : Type 0} → AclRouter D → Address → Option (List IpAddr) → OutboundType D
unfolding decide match_host
route_addr_with_resolved self addr resolved =
    decide self addr resolved (match_host self.engine addr)

unfoldable pub route_unblocked :
    {D : Type 0} → AclRouter D → Address → Bool × Option (List IpAddr) → OutboundType D
unfolding route_addr_with_resolved
route_unblocked self addr (true, ips) = reject
route_unblocked self addr (false, ips) = route_addr_with_resolved self addr ips

unfoldable pub route : {D : Type 0} → AclRouter D → Address → OutboundType D
unfolding route_unblocked
route self addr =
    if self.block_private_ip
    then route_unblocked self addr (check_private_and_resolve self.dns_cache addr)
    else route_addr_with_resolved self addr none
