-- ===== src/Backend.antt =====
-- The two backends: quiche_runner.rs with transport/quiche_tls.rs, and pingora_runner.rs. Sockets,
-- files and what tokio-quiche and pingora do are parameters.
pub mod Accepting
pub mod Limits
mod Tests
use Prim.Native.String.{String}
use server_naive_rs.Common.{
  ℕ, suc, ◌+◌, ◌*◌, ◌^◌, Bool, true, false, not, ltb, List, [], ◌∷◌, ◌++◌, Option, none, some,
  if◌then◌else◌,
}
use server_naive_rs.Address.{SocketAddr, v4}
use server_naive_rs.Address.Authority.{and_some}
use server_naive_rs.Config.{CongestionControl, bbr, cubic, new_reno, ServerConfig, ConnConfig}

-- std's reading of a file, `str::contains`, and whether a path is UTF-8.
pub record PemFiles : Type 0 where
  pub read_to_string : String → Option String
  pub contains : String → String → Bool
  pub is_utf8 : String → Bool

pub record QuicheTlsPaths : Type 0 where
  pub cert : String
  pub private_key : String

unfoldable pub when : Bool → Option (Unit {0})
when true = some tt
when false = none

-- `QuicheTlsPaths::new`.
unfoldable pub tls_paths : PemFiles → String → String → Option QuicheTlsPaths
unfolding and_some when
tls_paths files cert_path key_path = and_some (files.read_to_string cert_path) (λ cert_content.
    and_some (when (files.contains cert_content "BEGIN CERTIFICATE")) (λ cert_marked.
      and_some (files.read_to_string key_path) (λ key_content.
        and_some (when (files.contains key_content "PRIVATE KEY-----")) (λ key_marked.
          and_some (when (files.is_utf8 cert_path)) (λ cert_text.
            and_some (when (files.is_utf8 key_path))
              (λ key_text. some (record { cert = cert_path; private_key = key_path })))))))

-- The fields of tokio-quiche's `QuicSettings` that are written; times are in seconds.
pub record QuicSettings : Type 0 where
  pub alpn : List String
  pub cc_algorithm : String
  pub max_idle_timeout : Option ℕ
  pub initial_max_streams_bidi : ℕ
  pub initial_max_streams_uni : ℕ
  pub initial_max_data : ℕ
  pub initial_max_stream_data_bidi_local : ℕ
  pub initial_max_stream_data_bidi_remote : ℕ
  pub initial_max_stream_data_uni : ℕ
  pub enable_dgram : Bool
  pub disable_active_migration : Bool

unfoldable pub cc_name : CongestionControl → String
cc_name bbr = "bbr2_gcongestion"
cc_name cubic = "cubic"
cc_name new_reno = "reno"

unfoldable pub make_quiche_settings : CongestionControl → QuicSettings
unfolding cc_name
make_quiche_settings cc = record {
  alpn = "h3" ∷ [];
  cc_algorithm = cc_name cc;
  max_idle_timeout = some 120;
  initial_max_streams_bidi = 2 ^ 60;
  initial_max_streams_uni = 256;
  initial_max_data = 16 * 1024 * 1024;
  initial_max_stream_data_bidi_local = 2 * 1024 * 1024;
  initial_max_stream_data_bidi_remote = 2 * 1024 * 1024;
  initial_max_stream_data_uni = 2 * 1024 * 1024;
  enable_dgram = false;
  disable_active_migration = true;
}

pub data Domain : Type 0 where
  ipv4 ipv6 : Domain

-- socket2 and tokio: a raw socket, the same behind a call that succeeds, and a UDP socket of it.
pub record Sockets (R K : Type 0) : Type 0 where
  pub new_socket : Domain → Option R
  pub set_only_v6 : Bool → R → Option R
  pub set_reuse_address : Bool → R → Option R
  pub bind : Domain → ℕ → R → Option R
  pub set_nonblocking : Bool → R → Option R
  pub from_std : R → Option K
  pub has_local_addr : K → Bool

module _ {R K : Type 0} (sockets : Sockets R K) where
  -- On the unspecified address of the domain.
  unfoldable pub bound : Domain → ℕ → R → Option K
  unfolding and_some
  bound domain port raw = and_some (sockets.set_reuse_address true raw) (λ reused.
      and_some (sockets.bind domain port reused)
        (λ bound. and_some (sockets.set_nonblocking true bound) sockets.from_std))

  unfoldable pub try_v6 : ℕ → Option K
  unfolding and_some bound
  try_v6 port =
      and_some (sockets.new_socket ipv6)
        (λ raw. and_some (sockets.set_only_v6 false raw) (bound ipv6 port))

  unfoldable pub bind_dual_stack_udp : ℕ → Option K
  unfolding and_some bound try_v6
  bind_dual_stack_udp port = elim (try_v6 port) [
    | some socket ↦ some socket
    | none ↦ and_some (sockets.new_socket ipv4) (bound ipv4 port)
  ]

-- The semaphore of the accept loop with its free permits, or none where there is no limit.
unfoldable pub conn_limiter : ConnConfig → Option ℕ
conn_limiter config = if ltb 0 config.max_connections then some config.max_connections else none

-- `run_h3_server_quiche` up to its accept loop: the listener, made by `listen`, and the limiter.
unfoldable pub start_h3 :
    {R K L : Type 0}
    → PemFiles
    → Sockets R K
    → (K → QuicSettings → QuicheTlsPaths → Option L)
    → ServerConfig
    → ConnConfig
    → Option (L × Option ℕ)
unfolding and_some when tls_paths bind_dual_stack_udp make_quiche_settings conn_limiter
start_h3 files sockets listen config conn_config = and_some config.cert (λ cert.
    and_some config.key (λ key. and_some (tls_paths files cert key) (λ tls.
      and_some (bind_dual_stack_udp sockets config.port) (λ socket.
        and_some (when (sockets.has_local_addr socket)) (λ local.
          and_some (listen socket (make_quiche_settings config.congestion_control) tls)
            (λ listener. some (listener, conn_limiter conn_config)))))))

-- pingora's `TcpSocketOptions` that are written, on Linux; times are in seconds.
pub record TcpKeepalive : Type 0 where
  pub idle : ℕ
  pub interval : ℕ
  pub count : ℕ
  pub user_timeout : ℕ

unfoldable pub make_tcp_sock_opts : TcpKeepalive
make_tcp_sock_opts = record { idle = 15; interval = 15; count = 3; user_timeout = 15 + 15 * 3 }

-- `downstream_session.client_addr()`, where it is an Internet address.
unfoldable pub peer_or_unspecified : Option SocketAddr → SocketAddr
peer_or_unspecified (some addr) = addr
peer_or_unspecified none = record { ip = v4 (record { a = 0; b = 0; c = 0; d = 0 }); port = 0 }

-- `NaiveProxy::request_filter`: the result of the handler is logged only, and the request is handled.
unfoldable pub request_filter : {A : Type 0} → (SocketAddr → A) → Option SocketAddr → A × Bool
unfolding peer_or_unspecified
request_filter process_h2_request client_addr =
    (process_h2_request (peer_or_unspecified client_addr), true)

-- `run_h2_server_pingora`: the cert and the key as text, TLS settings of them, and whether the
-- server's thread ends without a panic.
unfoldable pub run_h2 :
    {T : Type 0}
    → PemFiles
    → (String → String → Option T)
    → (T → Bool)
    → ServerConfig
    → Option (Unit {0})
unfolding and_some when
run_h2 files intermediate serves config = and_some config.cert (λ cert. and_some config.key (λ key.
    and_some (when (files.is_utf8 cert)) (λ cert_text.
      and_some (when (files.is_utf8 key))
        (λ key_text. and_some (intermediate cert key) (λ tls. when (serves tls))))))
