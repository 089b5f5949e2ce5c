-- ===== src/Config/Tests.antt =====
-- The checks of a command line, and their theorem at one.
use text.Mathlib.Text.{◌==◌ as str_eq}
use server_naive_rs.Common.{◌≡◌, refl, true, false, none, some}
use server_naive_rs.ConfigAuto.{MaxConnections}
use server_naive_rs.Config.{
  pos, CliArgs, Platform, IpVersion, zero_heartbeat, acl_extension, passed, rejected, validate,
  parse_duration, congestion_control, new_reno, conn_config, idle_timeout_secs,
}
use server_naive_rs.Config.Validation.{Judged, validate-Judged}

abbrev platform : Platform
platform = record {
  to_lowercase = λ s. s;
  to_ascii_lowercase = λ s. s;
  eq_ignore_ascii_case = λ s t. str_eq s t;
  exists = λ path. true;
  extension = λ path. some path;
  humantime = λ s. none;
  parse_u64 = λ s. some 3;
}

abbrev args : CliArgs
args = record {
  api = "http://127.0.0.1:8080";
  token = "";
  node = 1;
  cert_file = "crt";
  key_file = "key";
  fetch_users_interval = 60;
  report_traffics_interval = 100;
  heartbeat_interval = 180;
  api_timeout = 15;
  log_mode = "info";
  data_dir = "data";
  acl_conf_file = some "yml";
  block_private_ip = true;
  refresh_geodata = false;
  panel_ip_version = IpVersion.v4;
  conn_idle_timeout = 500000000;
  tcp_connect_timeout = 5;
  request_timeout = 5;
  tls_handshake_timeout = 10;
  buffer_size = 0;
  tcp_backlog = pos 1024;
  tcp_nodelay = true;
  uplink_only_timeout = 2;
  downlink_only_timeout = 5;
  max_connections = MaxConnections.auto;
}

-- A buffer of no bytes and an idle timeout below a second pass.
args_pass : validate platform args ≡ passed
unfolding validate
args_pass = refl

idle_at_once : idle_timeout_secs (conn_config args 1) ≡ 0
unfolding idle_timeout_secs conn_config
idle_at_once = refl

no_heartbeat : validate platform (record args { heartbeat_interval = 0 }) ≡ rejected zero_heartbeat
unfolding validate
no_heartbeat = refl

not_yaml : validate platform (record args { acl_conf_file = some "json" }) ≡ rejected acl_extension
unfolding validate
not_yaml = refl

plain_seconds : parse_duration platform "3" ≡ some 3000000000
unfolding parse_duration
plain_seconds = refl

reno : congestion_control platform (some "reno") ≡ new_reno
unfolding congestion_control
reno = refl

validate-Judged_example : Judged platform args (validate platform args)
validate-Judged_example = validate-Judged platform args
