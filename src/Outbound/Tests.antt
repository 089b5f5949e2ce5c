-- ===== src/Outbound/Tests.antt =====
-- Outbounds from entries, and their theorems at them.
use Prim.Native.String.{String}
use server_naive_rs.Common.{◌≡◌, refl, true, false, [], ◌∷◌, Option, none, some, if◌then◌else◌}
use server_naive_rs.Router.{direct, socks5, reject}
use server_naive_rs.Router.Acl.{get}
use server_naive_rs.Outbound.{
  DirectConfig, OutboundEntry, Outside, made, failed, unknown_type, bind, from_entry,
  default_direct,
}
use server_naive_rs.Outbound.Options.{Dialed, from_entry-Dialed}
use server_naive_rs.Outbound.Engine.{AclConfig, Rules, engine, new}
use server_naive_rs.Outbound.Configured.{Configured, new-Configured}

-- Dialers are named by texts.
abbrev outside : Outside String
outside = record {
  parse_v4 = λ s. none;
  parse_v6 = λ s. none;
  test_socket = true;
  bind_v4 = λ ip. true;
  bind_v6 = λ ip. true;
  bind_to_device = λ device. true;
  with_options = λ options. if options.fast_open then some "fast" else some "options";
  direct_new = "plain";
  socks5_with_auth = λ addr username password. some username;
  socks5_new = λ addr. addr;
  http_try_new = λ addr https. none;
  http_new = λ addr. addr;
  http_with_auth = λ d username password. username;
  reject_new = "reject";
}

abbrev entry_of : String → String → Option DirectConfig → OutboundEntry
entry_of name kind config = record {
  name = name;
  outbound_type = kind;
  socks5 = none;
  http = none;
  direct = config;
}

abbrev fast : OutboundEntry
fast = entry_of "direct" "direct" (
    some (record {
      mode = "only4";
      bind_ipv4 = none;
      bind_ipv6 = none;
      bind_device = some "eth0";
      fast_open = true;
      tcp_nodelay = true;
      tcp_keepalive_secs = 0;
      connect_timeout_secs = 3;
    }))

abbrev via : OutboundEntry
via = record {
  name = "via";
  outbound_type = "socks5";
  socks5 =
      some (record {
        addr = "host";
        username = some "user";
        password = some "word";
        allow_udp = true;
      });
  http = none;
  direct = none;
}

fast_made : from_entry outside fast ≡ made (direct "fast" true)
unfolding from_entry bind default_direct
fast_made = refl

plain_made : from_entry outside (entry_of "direct" "direct" none) ≡ made (direct "options" false)
unfolding from_entry bind
plain_made = refl

via_made : from_entry outside via ≡ made (socks5 "user" true)
unfolding from_entry bind
via_made = refl

unknown_kind : from_entry outside (entry_of "x" "vless" none) ≡ failed unknown_type
unfolding from_entry bind
unknown_kind = refl

from_entry-Dialed_example : Dialed outside (from_entry outside fast)
from_entry-Dialed_example = from_entry-Dialed outside fast

-- The rules send all to what the name "direct" stands for, and are not looked into.
abbrev rules : Rules (Unit {0}) String
rules = record { parse = λ lines. some tt; compile = λ x m cache loader. some (λ addr. none) }

abbrev config : AclConfig
config = record { outbounds = via ∷ entry_of "direct" "direct" none ∷ fast ∷ []; acl_inline = [] }

new_run :
    new outside rules config none false
    ≡ engine (record {
      compiled = λ addr. none;
      outbounds =
          ("reject", reject "reject")
          ∷ ("direct", direct "fast" true)
          ∷ ("via", socks5 "user" true)
          ∷ [];
    })
unfolding new bind from_entry get
new_run = refl

new-Configured_example :
    Configured outside rules config.outbounds (new outside rules config none false)
new-Configured_example = new-Configured outside rules config none false
