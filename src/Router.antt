-- ===== src/Router.antt =====
-- core/hooks.rs and acl.rs: how a target is routed. The dialers of an outbound and the compiled
-- rule set belong to acl-engine-rs: `D` stands for a dialer, and the rules are a parameter.
pub mod Direct
pub mod Acl
pub mod Safety
use server_naive_rs.Common.{Bool, true, false, List, Option, none, some}
use server_naive_rs.Address.{IpAddr}

-- `OutboundHandler`; `direct` has `custom_dial`, `socks5` has `allow_udp`.
pub data OutboundHandler (D : Type 0) : Type 0 where
  direct : D → Bool → OutboundHandler D
  socks5 : D → Bool → OutboundHandler D
  http : D → OutboundHandler D
  reject : D → OutboundHandler D

pub data OutboundType (D : Type 0) : Type 0 where
  direct : Option (List IpAddr) → Option (OutboundHandler D) → OutboundType D
  reject : OutboundType D
  proxy : OutboundHandler D → OutboundType D

unfoldable pub is_none : {A : Type 0} → Option A → Bool
is_none none = true
is_none (some a) = false

unfoldable pub custom_dialer : {D : Type 0} → OutboundHandler D → Option (OutboundHandler D)
custom_dialer (direct d true) = some (direct d true)
custom_dialer (direct d false) = none
custom_dialer (socks5 d udp) = none
custom_dialer (http d) = none
custom_dialer (reject d) = none

unfoldable pub allows_udp : {D : Type 0} → OutboundHandler D → Bool
allows_udp (direct d custom) = true
allows_udp (socks5 d udp) = udp
allows_udp (http d) = false
allows_udp (reject d) = false
