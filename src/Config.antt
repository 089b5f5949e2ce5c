-- ===== src/Config.antt =====
-- config.rs: the command line's values, their checks, and the configurations made of them. clap's and
-- serde's reading of the fields is not modelled; std's functions on text and paths, humantime's
-- parser and the file system are parameters. A duration is a number of nanoseconds.
pub mod Validation
mod Tests
use Prim.Native.String.{String}
use text.Mathlib.Text.{◌==◌ as str_eq}
use server_naive_rs.Common.{
  ℕ, ◌*◌, ◌/◌, Bool, true, false, not, ◌&&◌, ◌||◌, ◌==◌, List, [], ◌∷◌, Option, none, some,
  if◌then◌else◌,
}
use server_naive_rs.ConfigAuto.{MaxConnections}

-- `pos n` is n, and `negsuc n` is −(n + 1).
pub data ℤ : Type 0 where
  pos negsuc : ℕ → ℤ

pub data IpVersion : Type 0 where
  v4 v6 auto : IpVersion

pub record CliArgs : Type 0 where
  pub api : String
  pub token : String
  pub node : ℕ
  pub cert_file : String
  pub key_file : String
  pub fetch_users_interval : ℕ
  pub report_traffics_interval : ℕ
  pub heartbeat_interval : ℕ
  pub api_timeout : ℕ
  pub log_mode : String
  pub data_dir : String
  pub acl_conf_file : Option String
  pub block_private_ip : Bool
  pub refresh_geodata : Bool
  pub panel_ip_version : IpVersion
  pub conn_idle_timeout : ℕ
  pub tcp_connect_timeout : ℕ
  pub request_timeout : ℕ
  pub tls_handshake_timeout : ℕ
  pub buffer_size : ℕ
  pub tcp_backlog : ℤ
  pub tcp_nodelay : Bool
  pub uplink_only_timeout : ℕ
  pub downlink_only_timeout : ℕ
  pub max_connections : MaxConnections

pub record Platform : Type 0 where
  pub to_lowercase : String → String
  pub to_ascii_lowercase : String → String
  pub eq_ignore_ascii_case : String → String → Bool
  pub exists : String → Bool
  pub extension : String → Option String
  pub humantime : String → Option ℕ
  pub parse_u64 : String → Option ℕ

abbrev any_of : String → List String → Bool
any_of s [] = false
any_of s (t ∷ texts) = str_eq s t || any_of s texts

abbrev unwrap_or_empty : Option String → String
unwrap_or_empty none = ""
unwrap_or_empty (some s) = s

pub data ConfigError : Type 0 where
  no_api no_node no_cert_file no_key_file cert_not_found key_not_found : ConfigError
  zero_fetch_users zero_report_traffics zero_heartbeat invalid_log_mode : ConfigError
  acl_not_found acl_extension : ConfigError

pub data Checked : Type 0 where
  passed : Checked
  rejected : ConfigError → Checked

pub data CongestionControl : Type 0 where
  bbr cubic new_reno : CongestionControl

pub data NaiveNetwork : Type 0 where
  tcp udp : NaiveNetwork

pub record NaiveConfig : Type 0 where
  pub server_port : ℕ
  pub network : NaiveNetwork
  pub congestion_control : CongestionControl

module _ (p : Platform) where
  unfoldable pub parse_ip_version : String → Option IpVersion
  parse_ip_version s =
      let lower = p.to_lowercase s in
      if any_of lower ("v4" ∷ "ipv4" ∷ "4" ∷ [])
      then some v4
      else (if any_of lower ("v6" ∷ "ipv6" ∷ "6" ∷ [])
          then some v6
          else (if str_eq lower "auto" then some auto else none))

  -- `Duration::from_secs` of plain seconds.
  unfoldable pub parse_duration : String → Option ℕ
  parse_duration s = elim (p.humantime s) [
    | some d ↦ some d
    | none ↦ elim (p.parse_u64 s) [ some secs ↦ some (secs * 1000000000) | none ↦ none ]
  ]

  unfoldable pub log_mode_valid : String → Bool
  log_mode_valid mode =
      any_of (p.to_lowercase mode) ("trace" ∷ "debug" ∷ "info" ∷ "warn" ∷ "error" ∷ [])

  unfoldable pub is_yaml : String → Bool
  is_yaml path =
      let ext = unwrap_or_empty (p.extension path) in
      p.eq_ignore_ascii_case ext "yaml" || p.eq_ignore_ascii_case ext "yml"

  unfoldable pub check_acl : Option String → Checked
  unfolding is_yaml
  check_acl none = passed
  check_acl (some path) =
      if not (p.exists path)
      then rejected acl_not_found
      else (if is_yaml path then passed else rejected acl_extension)

  unfoldable pub validate : CliArgs → Checked
  unfolding log_mode_valid check_acl
  validate cli =
      if str_eq cli.api ""
      then rejected no_api
      else (if cli.node == 0
          then rejected no_node
          else (if str_eq cli.cert_file ""
              then rejected no_cert_file
              else (if str_eq cli.key_file ""
                  then rejected no_key_file
                  else (if not (p.exists cli.cert_file)
                      then rejected cert_not_found
                      else (if not (p.exists cli.key_file)
                          then rejected key_not_found
                          else (if cli.fetch_users_interval == 0
                              then rejected zero_fetch_users
                              else (if cli.report_traffics_interval == 0
                                  then rejected zero_report_traffics
                                  else (if cli.heartbeat_interval == 0
                                      then rejected zero_heartbeat
                                      else (if not (log_mode_valid cli.log_mode)
                                          then rejected invalid_log_mode
                                          else check_acl cli.acl_conf_file)))))))))

  -- `CongestionControl::deserialize` of the value in the panel's JSON, null or a string.
  unfoldable pub congestion_control : Option String → CongestionControl
  congestion_control none = bbr
  congestion_control (some raw) =
      let lower = p.to_ascii_lowercase raw in
      if str_eq lower ""
      then bbr
      else (if any_of lower ("bbr" ∷ "bbr2" ∷ "bbrv2" ∷ [])
          then bbr
          else (if str_eq lower "cubic"
              then cubic
              else (if any_of lower ("reno" ∷ "newreno" ∷ "new_reno" ∷ []) then new_reno else bbr)))

-- `NodeConfigEnum` of the panel's package: the naive node's JSON, or another kind.
pub data NodeConfigEnum : Type 0 where
  naive : String → NodeConfigEnum
  other : NodeConfigEnum

-- serde's reading of the JSON is the parameter.
unfoldable pub parse_naive_config :
    (String → Option NaiveConfig) → NodeConfigEnum → Option NaiveConfig
parse_naive_config from_str (naive json) = from_str json
parse_naive_config from_str other = none

pub record ConnConfig : Type 0 where
  pub idle_timeout : ℕ
  pub uplink_only_timeout : ℕ
  pub downlink_only_timeout : ℕ
  pub connect_timeout : ℕ
  pub request_timeout : ℕ
  pub tls_handshake_timeout : ℕ
  pub buffer_size : ℕ
  pub tcp_backlog : ℤ
  pub tcp_nodelay : Bool
  pub max_connections : ℕ

unfoldable pub conn_config : CliArgs → ℕ → ConnConfig
conn_config cli max_connections = record {
  idle_timeout = cli.conn_idle_timeout;
  uplink_only_timeout = cli.uplink_only_timeout;
  downlink_only_timeout = cli.downlink_only_timeout;
  connect_timeout = cli.tcp_connect_timeout;
  request_timeout = cli.request_timeout;
  tls_handshake_timeout = cli.tls_handshake_timeout;
  buffer_size = cli.buffer_size;
  tcp_backlog = cli.tcp_backlog;
  tcp_nodelay = cli.tcp_nodelay;
  max_connections = max_connections;
}

-- `as_secs` drops the part of a second.
unfoldable pub idle_timeout_secs : ConnConfig → ℕ
idle_timeout_secs self = self.idle_timeout / 1000000000

pub record ServerConfig : Type 0 where
  pub port : ℕ
  pub cert : Option String
  pub key : Option String
  pub acl_conf_file : Option String
  pub data_dir : String
  pub block_private_ip : Bool
  pub congestion_control : CongestionControl

unfoldable pub from_remote : NaiveConfig → CliArgs → ServerConfig
from_remote remote cli = record {
  port = remote.server_port;
  cert = some cli.cert_file;
  key = some cli.key_file;
  acl_conf_file = cli.acl_conf_file;
  data_dir = cli.data_dir;
  block_private_ip = cli.block_private_ip;
  congestion_control = remote.congestion_control;
}
