-- ===== src/Router/Direct.antt =====
-- `DirectRouter` of core/hooks.rs.
use server_naive_rs.Common.{Bool, true, false, ◌&&◌, List, Option, none, if◌then◌else◌}
use server_naive_rs.Address.{IpAddr, Address, is_domain}
use server_naive_rs.Dns.{DnsCache, check_private_and_resolve}
use server_naive_rs.Router.{OutboundType, is_none, direct, reject}

pub record DirectRouter : Type 0 where
  pub block_private_ip : Bool
  pub dns_cache : DnsCache

-- Behind the check, under `block_private_ip`.
unfoldable pub route_checked : {D : Type 0} → Address → Bool × Option (List IpAddr) → OutboundType D
unfolding is_none
route_checked addr (true, resolved) = reject
route_checked addr (false, resolved) =
    if is_none resolved && is_domain addr then reject else direct resolved none

unfoldable pub route : {D : Type 0} → DirectRouter → Address → OutboundType D
unfolding route_checked
route self addr =
    if self.block_private_ip
    then route_checked addr (check_private_and_resolve self.dns_cache addr)
    else direct none none
