-- ===== src/Startup/ServedTests.antt =====
-- A server without an ACL file, and a tunnel that it opens.
use Prim.Native.String.{String}
use server_naive_rs.Common.{ℕ, ◌≡◌, refl, true, List, [], ◌∷◌, ◌++◌, Option, none, some}
use server_naive_rs.Address.{IpAddr, v4, domain}
use server_naive_rs.Address.Authority.{Parsing, from_authority}
use server_naive_rs.Router.{direct}
use server_naive_rs.Router.Direct
use server_naive_rs.IpFilter.{is_private_ipv4}
use server_naive_rs.Dns.{check_private_and_resolve, scan}
use server_naive_rs.Auth.{Decoding, basic, parse_basic_auth}
use server_naive_rs.Connection.{new}
use server_naive_rs.ConfigAuto.{resolve}
use server_naive_rs.Config.{udp, bbr, conn_config, from_remote}
use server_naive_rs.Request.Answers.{tunnels, connect, padding, proxy_authorization}
use server_naive_rs.Request.H3.{method_name, authority_name, h3_entry}
use server_naive_rs.Startup.{Running, direct_with_cache, start}
use server_naive_rs.Startup.Served.{
  Entrance, over_h3, request_at, result_at, Permitted, started_tunnels,
}
use server_naive_rs.Startup.Tests.{args_with, public_ip, cache, stats, files, world}

-- A parser of ports of one digit, and of no addresses.
abbrev digit : List ℕ → Option ℕ
digit [] = none
digit (c ∷ rest) = some c

abbrev parsing : Parsing
parsing = record { trim = λ t. t; parse_u16 = digit; parse_v4 = λ t. none; parse_v6 = λ t. none }

abbrev decoding : Decoding
decoding = record { trim = λ t. t; decode = λ t. some t; is_utf8 = λ t. true }

abbrev running : Running String (Unit {0})
running = record {
  server = record {
    authenticator = λ password. some 7;
    stats = stats;
    router = Direct.route (direct_with_cache true cache);
    conn_manager = new;
    conn_config =
        conn_config (args_with none)
          (resolve none none none (args_with none).max_connections).value;
    dns_cache = cache;
  };
  config =
      from_remote (record { server_port = 443; network = udp; congestion_control = bbr })
        (args_with none);
  use_h3 = true;
}

runs : (start (world files) (args_with none)).1 ≡ some running
unfolding start
runs = refl

-- A CONNECT to "a:9".
abbrev asked : Entrance
asked = over_h3 true (
    (method_name, connect)
    ∷ (authority_name, b'a' ∷ b':' ∷ b'9' ∷ [])
    ∷ (padding, b'y' ∷ [])
    ∷ (proxy_authorization, basic ++ (b'u' ∷ b':' ∷ b'p' ∷ []))
    ∷ [])

abbrev public : Option (List IpAddr)
public = some (v4 public_ip ∷ [])

tunnelled :
    result_at parsing decoding running.server.authenticator running.server.router (b'~' ∷ []) asked
    ≡ tunnels (domain (b'a' ∷ []) b'9') 7 (direct public none)
unfolding h3_entry from_authority parse_basic_auth Direct.route direct_with_cache
    check_private_and_resolve scan is_private_ipv4
tunnelled = refl

started_tunnels_example :
    Permitted
      (world files)
      parsing
      decoding
      (request_at parsing decoding running.server.authenticator running.server.router asked)
      running
      (domain (b'a' ∷ []) b'9')
      7
started_tunnels_example =
    started_tunnels (world files) parsing decoding (args_with none) running runs refl asked
      (b'~' ∷ []) (domain (b'a' ∷ []) b'9') 7 public none tunnelled
