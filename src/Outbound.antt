-- ===== src/Outbound.antt =====
-- The outbounds of acl.rs: what an entry of the ACL file makes of the dialers of acl-engine-rs,
-- and the engine over them. On Linux: a device can be bound to.
pub mod Engine
pub mod Options
pub mod Named
pub mod Configured
mod Tests
use Prim.Native.String.{String}
use text.Mathlib.Text.{◌==◌ as str_eq}
use server_naive_rs.Common.{
  ℕ, Bool, true, false, not, ◌||◌, ◌==◌, ltb, List, [], ◌∷◌, Option, none, some, if◌then◌else◌,
}
use server_naive_rs.IpFilter.{Ipv4Addr, Ipv6Addr}
use server_naive_rs.Router.{OutboundHandler, direct, socks5, http, reject}

pub record Socks5Config : Type 0 where
  pub addr : String
  pub username : Option String
  pub password : Option String
  pub allow_udp : Bool

pub record HttpConfig : Type 0 where
  pub addr : String
  pub username : Option String
  pub password : Option String
  pub https : Bool

pub record DirectConfig : Type 0 where
  pub mode : String
  pub bind_ipv4 : Option String
  pub bind_ipv6 : Option String
  pub bind_device : Option String
  pub fast_open : Bool
  pub tcp_nodelay : Bool
  pub tcp_keepalive_secs : ℕ
  pub connect_timeout_secs : ℕ

pub record OutboundEntry : Type 0 where
  pub name : String
  pub outbound_type : String
  pub socks5 : Option Socks5Config
  pub http : Option HttpConfig
  pub direct : Option DirectConfig

abbrev default_ip_mode : String
default_ip_mode = "auto"

abbrev default_tcp_nodelay : Bool
default_tcp_nodelay = true

abbrev pub default_tcp_keepalive_secs : ℕ
default_tcp_keepalive_secs = 60

-- `DirectConfig::default`, which is also what an entry without a `direct` part amounts to.
unfoldable pub default_direct : DirectConfig
default_direct = record {
  mode = default_ip_mode;
  bind_ipv4 = none;
  bind_ipv6 = none;
  bind_device = none;
  fast_open = false;
  tcp_nodelay = default_tcp_nodelay;
  tcp_keepalive_secs = default_tcp_keepalive_secs;
  connect_timeout_secs = 0;
}

-- acl-engine-rs.
pub data DirectMode : Type 0 where
  auto only4 only6 prefer46 prefer64 : DirectMode

pub record DirectOptions : Type 0 where
  pub mode : DirectMode
  pub bind_ip4 : Option Ipv4Addr
  pub bind_ip6 : Option Ipv6Addr
  pub bind_device : Option String
  pub fast_open : Bool
  pub timeout : Option ℕ
  pub tcp_nodelay : Bool
  pub tcp_keepalive : Option ℕ

-- The constructors of the dialers, std's parsers of addresses, and the test sockets: whether one is
-- made, and whether it could be bound.
pub record Outside (D : Type 0) : Type 0 where
  pub parse_v4 : String → Option Ipv4Addr
  pub parse_v6 : String → Option Ipv6Addr
  pub test_socket : Bool
  pub bind_v4 : Ipv4Addr → Bool
  pub bind_v6 : Ipv6Addr → Bool
  pub bind_to_device : String → Bool
  pub with_options : DirectOptions → Option D
  pub direct_new : D
  pub socks5_with_auth : String → String → String → Option D
  pub socks5_new : String → D
  pub http_try_new : String → Bool → Option D
  pub http_new : String → D
  pub http_with_auth : D → String → String → D
  pub reject_new : D

-- The errors that an entry may meet.
pub data EntryError : Type 0 where
  invalid_mode invalid_bind_ipv4 invalid_bind_ipv6 no_test_socket bind_ipv4_failed : EntryError
  bind_ipv6_failed bind_device_failed invalid_direct socks5_required invalid_socks5 : EntryError
  http_required invalid_http unknown_type : EntryError

pub data EntryResult (A : Type 0) : Type 0 where
  made : A → EntryResult A
  failed : EntryError → EntryResult A

unfoldable pub bind : {A B : Type 0} → EntryResult A → (A → EntryResult B) → EntryResult B
bind (made a) k = k a
bind (failed e) k = failed e

abbrev pub required : {A : Type 0} → EntryError → Option A → EntryResult A
required e none = failed e
required e (some a) = made a

unfoldable pub parse_mode : String → Option DirectMode
parse_mode mode =
    if str_eq mode "auto"
    then some auto
    else (if str_eq mode "4" || str_eq mode "only4"
        then some only4
        else (if str_eq mode "6" || str_eq mode "only6"
            then some only6
            else (if str_eq mode "prefer4" || str_eq mode "46"
                then some prefer46
                else (if str_eq mode "prefer6" || str_eq mode "64" then some prefer64 else none))))

-- `.map(parse).transpose()`.
unfoldable pub parse_bind :
    {A : Type 0} → (String → Option A) → EntryError → Option String → EntryResult (Option A)
parse_bind parse e none = made none
parse_bind parse e (some s) = elim (parse s) [ none ↦ failed e | some ip ↦ made (some ip) ]

-- A socket made and bound, to see whether it can be.
unfoldable pub test_bind :
    {A : Type 0} → Bool → (A → Bool) → EntryError → Option A → EntryResult (Unit {0})
test_bind socket can_bind e none = made tt
test_bind socket can_bind e (some a) =
    if socket then (if can_bind a then made tt else failed e) else failed no_test_socket

-- `if secs > 0 { Some(Duration::from_secs(secs)) } else { None }`.
unfoldable pub positive : ℕ → Option ℕ
positive secs = if ltb 0 secs then some secs else none

unfoldable pub is_some : {A : Type 0} → Option A → Bool
is_some none = false
is_some (some a) = true

unfoldable pub is_auto : DirectMode → Bool
is_auto auto = true
is_auto only4 = false
is_auto only6 = false
is_auto prefer46 = false
is_auto prefer64 = false

unfoldable pub custom_dial : DirectConfig → DirectMode → Option Ipv4Addr → Option Ipv6Addr → Bool
unfolding is_some is_auto positive
custom_dial config mode ip4 ip6 =
    is_some ip4
    || (is_some ip6
        || (is_some config.bind_device
            || (not (is_auto mode)
                || (config.fast_open
                    || (not config.tcp_nodelay
                        || (not (config.tcp_keepalive_secs == default_tcp_keepalive_secs)
                            || is_some (positive config.connect_timeout_secs)))))))

unfoldable pub direct_options :
    DirectConfig → DirectMode → Option Ipv4Addr → Option Ipv6Addr → DirectOptions
unfolding positive
direct_options config mode ip4 ip6 = record {
  mode = mode;
  bind_ip4 = ip4;
  bind_ip6 = ip6;
  bind_device = config.bind_device;
  fast_open = config.fast_open;
  timeout = positive config.connect_timeout_secs;
  tcp_nodelay = config.tcp_nodelay;
  tcp_keepalive = positive config.tcp_keepalive_secs;
}

-- `(Some(username), Some(password))`.
unfoldable pub credentials : Option String → Option String → Option (String × String)
credentials (some username) (some password) = some (username, password)
credentials (some username) none = none
credentials none password = none

module _ {D : Type 0} (out : Outside D) where
  unfoldable pub direct_handler : DirectConfig → EntryResult (OutboundHandler D)
  unfolding parse_mode parse_bind test_bind custom_dial direct_options
  direct_handler config = bind (required invalid_mode (parse_mode config.mode)) (λ mode.
      bind (parse_bind out.parse_v4 invalid_bind_ipv4 config.bind_ipv4) (λ ip4.
        bind (parse_bind out.parse_v6 invalid_bind_ipv6 config.bind_ipv6) (λ ip6.
          bind (test_bind out.test_socket out.bind_v4 bind_ipv4_failed ip4) (λ _.
            bind (test_bind out.test_socket out.bind_v6 bind_ipv6_failed ip6) (λ _.
              bind
                (test_bind out.test_socket out.bind_to_device bind_device_failed config.bind_device)
                (λ _.
                  bind
                    (required invalid_direct
                      (out.with_options (direct_options config mode ip4 ip6)))
                    (λ d. made (direct d (custom_dial config mode ip4 ip6)))))))))

  unfoldable pub socks5_handler : Socks5Config → EntryResult (OutboundHandler D)
  unfolding credentials
  socks5_handler config = elim (credentials config.username config.password) [
    | some (username, password) ↦
        bind (required invalid_socks5 (out.socks5_with_auth config.addr username password))
          (λ d. made (socks5 d config.allow_udp))
    | none ↦ made (socks5 (out.socks5_new config.addr) config.allow_udp)
  ]

  unfoldable pub http_handler : HttpConfig → EntryResult (OutboundHandler D)
  unfolding credentials
  http_handler config =
      bind
        (if config.https
          then required invalid_http (out.http_try_new config.addr true)
          else made (out.http_new config.addr))
        (λ d. elim (credentials config.username config.password) [
          | some (username, password) ↦ made (http (out.http_with_auth d username password))
          | none ↦ made (http d)
        ])

  unfoldable pub or_default_direct : Option DirectConfig → DirectConfig
  unfolding default_direct
  or_default_direct none = default_direct
  or_default_direct (some config) = config

  -- `OutboundHandler::from_entry`.
  unfoldable pub from_entry : OutboundEntry → EntryResult (OutboundHandler D)
  unfolding direct_handler socks5_handler http_handler or_default_direct
  from_entry entry =
      if str_eq entry.outbound_type "direct"
      then direct_handler (or_default_direct entry.direct)
      else (if str_eq entry.outbound_type "socks5"
          then bind (required socks5_required entry.socks5) socks5_handler
          else (if str_eq entry.outbound_type "http"
              then bind (required http_required entry.http) http_handler
              else (if str_eq entry.outbound_type "reject"
                  then made (reject out.reject_new)
                  else failed unknown_type)))
