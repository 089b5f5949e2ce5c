-- ===== src/Backend/Tests.antt =====
-- Runs of the accept loop with one permit, and of the start of the backends.
use text.Mathlib.Text.{◌==◌ as str_eq}
use server_naive_rs.Common.{◌≡◌, refl, Bool, true, false, [], none, some}
use server_naive_rs.Config.{pos, bbr, ConnConfig, ServerConfig}
use server_naive_rs.Backend.{
  PemFiles, Sockets, Domain, tls_paths, bind_dual_stack_udp, start_h3, conn_limiter,
}
use server_naive_rs.Backend.Accepting.{
  connection_error, Accepting, Step, on_event, release, after_event, init, Reach,
}
use server_naive_rs.Backend.Limits.{Accepts, Reach-Accepts}

abbrev settings : ConnConfig
settings = record {
  idle_timeout = 60;
  uplink_only_timeout = 2;
  downlink_only_timeout = 5;
  connect_timeout = 5;
  request_timeout = 5;
  tls_handshake_timeout = 10;
  buffer_size = 32768;
  tcp_backlog = pos 1024;
  tcp_nodelay = true;
  max_connections = 1;
}

abbrev config : ServerConfig
config = record {
  port = 443;
  cert = some "crt";
  key = some "key";
  acl_conf_file = none;
  data_dir = "data";
  block_private_ip = true;
  congestion_control = bbr;
}

abbrev files : PemFiles
files = record {
  read_to_string = λ path. some path;
  contains = λ content marker. true;
  is_utf8 = λ path. true;
}

-- A host without IPv6.
abbrev is_ipv4 : Domain → Bool
is_ipv4 Domain.ipv4 = true
is_ipv4 Domain.ipv6 = false

abbrev sockets : Sockets Domain Domain
sockets = record {
  new_socket = λ domain. some domain;
  set_only_v6 = λ only raw. none;
  set_reuse_address = λ reuse raw. some raw;
  bind = λ domain port raw. some raw;
  set_nonblocking = λ nonblocking raw. some raw;
  from_std = λ raw. some raw;
  has_local_addr = λ socket. true;
}

falls_back : bind_dual_stack_udp sockets 443 ≡ some Domain.ipv4
unfolding bind_dual_stack_udp
falls_back = refl

starts :
    start_h3 files sockets (λ socket quic tls. some socket) config settings
    ≡ some (Domain.ipv4, some 1)
unfolding start_h3
starts = refl

no_certificate :
    tls_paths (record files { contains = λ content marker. str_eq content marker }) "crt" "key"
    ≡ none
unfolding tls_paths
no_certificate = refl

abbrev Run : Type 0
Run = (s : Accepting) × Reach (conn_limiter settings) s

abbrev then : (r : Run) {t : Accepting} → Step r.0 t → Run
then r {t} step = (t, Reach.later r.1 step)

-- A connection runs, and a second is accepted.
abbrev waiting : Run
unfolding conn_limiter init
waiting =
    let r = then (init (conn_limiter settings), Reach.start) (Step.accepted refl) in
    let r2 = then r (Step.acquire 0 refl refl) in then r2 (Step.accepted refl)

-- The first fails, and the second is started.
abbrev started : Run
unfolding conn_limiter init on_event release after_event
started =
    let r =
      then waiting
        (Step.event [] [] (record { requests = 0; permit = true }) connection_error refl) in
    then r (Step.acquire 0 refl refl)

Reach-Accepts_example : Accepts 1 waiting.0
Reach-Accepts_example = Reach-Accepts settings waiting.1
