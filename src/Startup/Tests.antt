-- ===== src/Startup/Tests.antt =====
-- A start with an ACL file, and one that fails behind the registration.
use Prim.Native.String.{String}
use text.Mathlib.Text.{◌==◌ as str_eq}
use server_naive_rs.Common.{ℕ, ◌≡◌, refl, true, false, List, [], ◌∷◌, Option, none, some}
use server_naive_rs.IpFilter.{Ipv4Addr}
use server_naive_rs.Address.{v4}
use server_naive_rs.Dns.{DnsCache, found}
use server_naive_rs.Connection.{new}
use server_naive_rs.ConfigAuto.{MaxConnections}
use server_naive_rs.Config.{pos, CliArgs, Platform, IpVersion, bbr, NaiveConfig, udp, naive}
use server_naive_rs.Outbound.{Outside}
use server_naive_rs.Outbound.Engine.{Rules}
use server_naive_rs.Relay.Bidirectional.{Recorded}
use server_naive_rs.Startup.{
  AclFiles, fetch_config, initialize, fetch_users, unregister, Panel, World, start, main_calls,
}
use server_naive_rs.Startup.Started.{Started, start-Started}

abbrev platform : Platform
platform = record {
  to_lowercase = λ s. s;
  to_ascii_lowercase = λ s. s;
  eq_ignore_ascii_case = λ s t. str_eq s t;
  exists = λ path. true;
  extension = λ path. some path;
  humantime = λ s. none;
  parse_u64 = λ s. some 3;
}

abbrev pub args_with : Option String → CliArgs
args_with acl_conf_file = record {
  api = "http://127.0.0.1:8080";
  token = "";
  node = 1;
  cert_file = "crt";
  key_file = "key";
  fetch_users_interval = 60;
  report_traffics_interval = 100;
  heartbeat_interval = 180;
  api_timeout = 15;
  log_mode = "info";
  data_dir = "data";
  acl_conf_file = acl_conf_file;
  block_private_ip = true;
  refresh_geodata = false;
  panel_ip_version = IpVersion.v4;
  conn_idle_timeout = 500000000;
  tcp_connect_timeout = 5;
  request_timeout = 5;
  tls_handshake_timeout = 10;
  buffer_size = 0;
  tcp_backlog = pos 1024;
  tcp_nodelay = true;
  uplink_only_timeout = 2;
  downlink_only_timeout = 5;
  max_connections = MaxConnections.fixed 100;
}

abbrev args : CliArgs
args = args_with (some "yml")

-- Dialers are named by texts.
abbrev outside : Outside String
outside = record {
  parse_v4 = λ s. none;
  parse_v6 = λ s. none;
  test_socket = true;
  bind_v4 = λ ip. true;
  bind_v6 = λ ip. true;
  bind_to_device = λ device. true;
  with_options = λ options. some "options";
  direct_new = "plain";
  socks5_with_auth = λ addr username password. some username;
  socks5_new = λ addr. addr;
  http_try_new = λ addr https. none;
  http_new = λ addr. addr;
  http_with_auth = λ d username password. username;
  reject_new = "reject";
}

abbrev rules : Rules (Unit {0}) String
rules = record { parse = λ lines. some tt; compile = λ x m cache loader. some (λ addr. none) }

abbrev pub files : AclFiles
files = record {
  read_to_string = λ path. some path;
  from_str = λ content. some (record { outbounds = []; acl_inline = [] });
}

abbrev no_files : AclFiles
no_files = record { read_to_string = λ path. none; from_str = λ content. none }

abbrev panel : Panel (List (List ℕ))
panel = record {
  creates = true;
  config = some (naive "json");
  initializes = λ port. true;
  users = some none;
  authenticate = λ users credential. some 7;
}

abbrev from_json : String → Option NaiveConfig
from_json json = some (record { server_port = 443; network = udp; congestion_control = bbr })

abbrev pub stats : Recorded → Unit {0}
stats call = tt

abbrev pub public_ip : Ipv4Addr
public_ip = record { a = 93; b = 184; c = 216; d = 34 }

abbrev pub cache : DnsCache
cache = record {
  resolve_with_port_iter = λ host p. found (record { ip = v4 public_ip; port = p } ∷ []);
}

abbrev pub world : AclFiles → World (Unit {0}) String (List (List ℕ)) (Unit {0})
world files = record {
  platform = platform;
  outside = outside;
  rules = rules;
  files = files;
  panel = panel;
  from_json = from_json;
  stats = stats;
  parallelism = none;
  memory_kb = none;
  nofile = none;
  dns_cache = cache;
  manager = new;
}

whole_run :
    main_calls (world files) args ≡ fetch_config ∷ initialize 443 ∷ fetch_users ∷ unregister ∷ []
unfolding main_calls
whole_run = refl

-- The ACL file cannot be read: the node is registered, and is not unregistered.
left_registered :
    main_calls (world no_files) args ≡ fetch_config ∷ initialize 443 ∷ fetch_users ∷ []
unfolding main_calls
left_registered = refl

start-Started_example : Started (world files) args (start (world files) args)
start-Started_example = start-Started (world files) args
