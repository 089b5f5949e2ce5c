-- ===== src/Server/Tests.antt =====
-- A server with the router it falls back to.
use server_naive_rs.Common.{ℕ, ◌≡◌, refl, true, [], none, some}
use server_naive_rs.Address.{ipv4}
use server_naive_rs.IpFilter.{is_private_ipv4}
use server_naive_rs.Dns.{DnsCache, found, check_private_and_resolve}
use server_naive_rs.Router.{reject}
use server_naive_rs.Router.Direct
use server_naive_rs.Config.{pos, ConnConfig}
use server_naive_rs.Server.{
  ServerBuilder, builder, set_authenticator, set_stats, set_conn_config, set_dns_cache,
  router_or_direct,
}

abbrev settings : ConnConfig
settings = record {
  idle_timeout = 60;
  uplink_only_timeout = 2;
  downlink_only_timeout = 5;
  connect_timeout = 5;
  request_timeout = 5;
  tls_handshake_timeout = 10;
  buffer_size = 32768;
  tcp_backlog = pos 1024;
  tcp_nodelay = true;
  max_connections = 100;
}

abbrev cache : DnsCache
cache = record { resolve_with_port_iter = λ host p. found [] }

given : ServerBuilder ℕ (Unit {0})
unfolding builder set_authenticator set_stats set_conn_config set_dns_cache
given =
    set_dns_cache
      (set_conn_config (set_stats (set_authenticator builder (λ text. some 1)) (λ call. tt))
        settings)
      cache

loopback_rejected :
    router_or_direct {D = ℕ} cache none (ipv4 (record { a = 127; b = 0; c = 0; d = 1 }) 80) ≡ reject
unfolding router_or_direct Direct.route check_private_and_resolve is_private_ipv4
loopback_rejected = refl
