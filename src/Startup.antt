-- ===== src/Startup.antt =====
-- main.rs, to the running server: the steps of `main` with their early returns and the calls to the
-- panel, `build_router`, and `load_acl_config` of acl.rs. The panel's package, serde, the file
-- system and the machine's limits are parameters.
pub mod Guarded
pub mod Served
pub mod Started
mod Tests
mod ServedTests
use Prim.Native.String.{String}
use server_naive_rs.Common.{
  ℕ, Bool, true, false, not, List, [], ◌∷◌, ◌++◌, Option, none, some, if◌then◌else◌,
}
use server_naive_rs.Address.{Address}
use server_naive_rs.Dns.{DnsCache}
use server_naive_rs.Router.{OutboundType}
use server_naive_rs.Router.Acl
use server_naive_rs.Router.Acl.{AclEngine, AclRouter}
use server_naive_rs.Router.Direct
use server_naive_rs.Router.Direct.{DirectRouter}
use server_naive_rs.Connection.{ConnectionManager}
use server_naive_rs.ConfigAuto.{MaxConnections, resolve}
use server_naive_rs.Config.{
  CliArgs, Platform, Checked, passed, rejected, is_yaml, validate, NaiveConfig, NaiveNetwork, tcp,
  udp, NodeConfigEnum, parse_naive_config, conn_config, ServerConfig, from_remote,
}
use server_naive_rs.Outbound.{Outside}
use server_naive_rs.Outbound.Engine
use server_naive_rs.Outbound.Engine.{AclConfig, Rules, engine, no_engine}
use server_naive_rs.Relay.Bidirectional.{Recorded}
use server_naive_rs.Server.{
  Server, builder, set_authenticator, set_stats, set_router, set_conn_manager, set_conn_config,
  set_dns_cache, build,
}

-- `read_to_string` of a path, and serde's reading of the YAML.
pub record AclFiles : Type 0 where
  pub read_to_string : String → Option String
  pub from_str : String → Option AclConfig

unfoldable pub load_acl_config : AclFiles → String → Option AclConfig
load_acl_config files path = elim (files.read_to_string path) [
  | none ↦ none
  | some content ↦ files.from_str content
]

-- `AclRouter::with_cache` and `DirectRouter::with_cache`.
unfoldable pub acl_with_cache : {D : Type 0} → AclEngine D → Bool → DnsCache → AclRouter D
acl_with_cache acl_engine block_private_ip dns_cache = record {
  engine = acl_engine;
  block_private_ip = block_private_ip;
  dns_cache = dns_cache;
}

unfoldable pub direct_with_cache : Bool → DnsCache → DirectRouter
direct_with_cache block_private_ip dns_cache = record {
  block_private_ip = block_private_ip;
  dns_cache = dns_cache;
}

-- The calls to the panel.
pub data PanelCall : Type 0 where
  fetch_config : PanelCall
  initialize : ℕ → PanelCall
  fetch_users : PanelCall
  unregister : PanelCall

-- What the panel's package answers; `U` is a list of users, and none means no change.
pub record Panel (U : Type 0) : Type 0 where
  pub creates : Bool
  pub config : Option NodeConfigEnum
  pub initializes : ℕ → Bool
  pub users : Option (Option U)
  pub authenticate : Option U → List ℕ → Option ℕ

-- The calls made, and what `?` lets through.
abbrev pub Trace : Type 0 → Type 0
Trace A = List PanelCall × Option A

unfoldable pub and_then : {A B : Type 0} → Trace A → (A → Trace B) → Trace B
and_then (calls, none) k = (calls, none)
and_then (calls, some a) k = let (more, result) = k a in (calls ++ more, result)

abbrev pub quiet : {A : Type 0} → Option A → Trace A
quiet o = ([], o)

abbrev pub call : {A : Type 0} → PanelCall → Option A → Trace A
call c o = (c ∷ [], o)

abbrev pub proceed : Bool → Option (Unit {0})
proceed true = some tt
proceed false = none

abbrev pub is_passed : Checked → Bool
is_passed passed = true
is_passed (rejected e) = false

abbrev pub is_udp : NaiveNetwork → Bool
is_udp tcp = false
is_udp udp = true

pub record Running (D S : Type 0) : Type 0 where
  pub server : Server D S
  pub config : ServerConfig
  pub use_h3 : Bool

-- What `main` runs in: the platform, the dialers and rules, the files, the panel, serde's reading of
-- the panel's JSON, the calls of the statistics, the machine's limits, and the cache and the registry
-- that `main` makes.
pub record World (X D U S : Type 0) : Type 0 where
  pub platform : Platform
  pub outside : Outside D
  pub rules : Rules X D
  pub files : AclFiles
  pub panel : Panel U
  pub from_json : String → Option NaiveConfig
  pub stats : Recorded → S
  pub parallelism : Option ℕ
  pub memory_kb : Option ℕ
  pub nofile : Option ℕ
  pub dns_cache : DnsCache
  pub manager : ConnectionManager

module _ {X D : Type 0} (p : Platform) (out : Outside D) (rules : Rules X D)
    (files : AclFiles) where
  unfoldable pub acl_router :
      ServerConfig → Bool → DnsCache → String → Option (Address → OutboundType D)
  unfolding is_yaml load_acl_config Engine.new Acl.route acl_with_cache
  acl_router config refresh_geodata dns_cache acl_path =
      if not (p.exists acl_path)
      then none
      else if not (is_yaml p acl_path)
      then none
      else elim (load_acl_config files acl_path) [
        | none ↦ none
        | some acl_config ↦
            elim (Engine.new out rules acl_config (some config.data_dir) refresh_geodata) [
              | no_engine e ↦ none
              | engine acl_engine ↦
                  some (Acl.route (acl_with_cache acl_engine config.block_private_ip dns_cache))
            ]
      ]

  unfoldable pub build_router : ServerConfig → Bool → DnsCache → Option (Address → OutboundType D)
  unfolding acl_router Direct.route direct_with_cache
  build_router config refresh_geodata dns_cache = elim config.acl_conf_file [
    | some acl_path ↦ acl_router config refresh_geodata dns_cache acl_path
    | none ↦ some (Direct.route (direct_with_cache config.block_private_ip dns_cache))
  ]

module _ {X D U S : Type 0} (w : World X D U S) where
  -- The builder's chain of calls, with all parts; `none` would be a panic of `build`.
  unfoldable pub build_server :
      CliArgs → Option U → (Address → OutboundType D) → Option (Server D S)
  unfolding builder set_authenticator set_stats set_router set_conn_manager set_conn_config
      set_dns_cache build conn_config resolve
  build_server cli users router = build (
      set_dns_cache
        (set_conn_config
          (set_conn_manager
            (set_router (set_stats (set_authenticator builder (w.panel.authenticate users)) w.stats)
              router)
            w.manager)
          (conn_config cli (resolve w.parallelism w.memory_kb w.nofile cli.max_connections).value))
        w.dns_cache)

  -- The steps of `main` up to the running server, from the last to the first.
  unfoldable pub with_router :
      CliArgs → NaiveConfig → Option U → (Address → OutboundType D) → Trace (Running D S)
  unfolding and_then from_remote build_server
  with_router cli naive_config users router =
      and_then (quiet (build_server cli users router)) (λ server. quiet (
        some (record {
          server = server;
          config = from_remote naive_config cli;
          use_h3 = is_udp naive_config.network;
        })))

  unfoldable pub with_users : CliArgs → NaiveConfig → Option U → Trace (Running D S)
  unfolding and_then from_remote build_router with_router
  with_users cli naive_config users =
      and_then
        (quiet (
          build_router w.platform w.outside w.rules w.files (from_remote naive_config cli)
            cli.refresh_geodata w.dns_cache))
        (with_router cli naive_config users)

  unfoldable pub registered : CliArgs → NaiveConfig → Unit {0} → Trace (Running D S)
  unfolding and_then with_users
  registered cli naive_config done =
      and_then (call fetch_users w.panel.users) (with_users cli naive_config)

  unfoldable pub with_config : CliArgs → NaiveConfig → Trace (Running D S)
  unfolding and_then registered
  with_config cli naive_config =
      and_then
        (call (initialize naive_config.server_port)
          (proceed (w.panel.initializes naive_config.server_port)))
        (registered cli naive_config)

  unfoldable pub with_node : CliArgs → NodeConfigEnum → Trace (Running D S)
  unfolding and_then parse_naive_config with_config
  with_node cli node_config =
      and_then (quiet (parse_naive_config w.from_json node_config)) (with_config cli)

  unfoldable pub with_api : CliArgs → Unit {0} → Trace (Running D S)
  unfolding and_then with_node
  with_api cli done = and_then (call fetch_config w.panel.config) (with_node cli)

  unfoldable pub validated : CliArgs → Unit {0} → Trace (Running D S)
  unfolding and_then with_api
  validated cli done = and_then (quiet (proceed w.panel.creates)) (with_api cli)

  unfoldable pub start : CliArgs → Trace (Running D S)
  unfolding and_then validate validated
  start cli = and_then (quiet (proceed (is_passed (validate w.platform cli)))) (validated cli)

  -- `main` from its start to its end, where the task of the signals ends without a panic.
  unfoldable pub main_calls : CliArgs → List PanelCall
  unfolding start
  main_calls cli =
      let (calls, result) = start cli in
      elim result [ none ↦ calls | some running ↦ calls ++ (unregister ∷ []) ]
