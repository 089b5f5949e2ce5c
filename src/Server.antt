-- ===== src/Server.antt =====
-- core/server.rs: the server, and its builder. A router is what it makes of a target.
pub mod Defaults
mod Tests
use server_naive_rs.Common.{ℕ, Bool, true, List, Option, none, some}
use server_naive_rs.Address.{Address}
use server_naive_rs.Dns.{DnsCache}
use server_naive_rs.Router.{OutboundType}
use server_naive_rs.Router.Direct
use server_naive_rs.Router.Direct.{DirectRouter}
use server_naive_rs.Connection.{ConnectionManager, new}
use server_naive_rs.Config.{ConnConfig}
use server_naive_rs.Relay.Bidirectional.{Recorded}

-- The authenticator takes a credential to a user, and the collector a call to what it does, `S`.
pub record Server (D S : Type 0) : Type 0 where
  pub authenticator : List ℕ → Option ℕ
  pub stats : Recorded → S
  pub router : Address → OutboundType D
  pub conn_manager : ConnectionManager
  pub conn_config : ConnConfig
  pub dns_cache : DnsCache

pub record ServerBuilder (D S : Type 0) : Type 0 where
  pub authenticator : Option (List ℕ → Option ℕ)
  pub stats : Option (Recorded → S)
  pub router : Option (Address → OutboundType D)
  pub conn_manager : Option ConnectionManager
  pub conn_config : Option ConnConfig
  pub dns_cache : Option DnsCache

unfoldable pub builder : {D S : Type 0} → ServerBuilder D S
builder = record {
  authenticator = none;
  stats = none;
  router = none;
  conn_manager = none;
  conn_config = none;
  dns_cache = none;
}

-- The setters of the builder.
module _ {D S : Type 0} (self : ServerBuilder D S) where
  unfoldable pub set_authenticator : (List ℕ → Option ℕ) → ServerBuilder D S
  set_authenticator auth = record self { authenticator = some auth }

  unfoldable pub set_stats : (Recorded → S) → ServerBuilder D S
  set_stats stats = record self { stats = some stats }

  unfoldable pub set_router : (Address → OutboundType D) → ServerBuilder D S
  set_router router = record self { router = some router }

  unfoldable pub set_conn_manager : ConnectionManager → ServerBuilder D S
  set_conn_manager manager = record self { conn_manager = some manager }

  unfoldable pub set_conn_config : ConnConfig → ServerBuilder D S
  set_conn_config config = record self { conn_config = some config }

  unfoldable pub set_dns_cache : DnsCache → ServerBuilder D S
  set_dns_cache cache = record self { dns_cache = some cache }

unfoldable pub router_or_direct :
    {D : Type 0} → DnsCache → Option (Address → OutboundType D) → Address → OutboundType D
router_or_direct cache none = Direct.route (record { block_private_ip = true; dns_cache = cache })
router_or_direct cache (some router) = router

unfoldable pub manager_or_new : Option ConnectionManager → ConnectionManager
manager_or_new none = new
manager_or_new (some manager) = manager

-- `build`; `none` is the panic of an `expect`.
unfoldable pub build : {D S : Type 0} → ServerBuilder D S → Option (Server D S)
unfolding router_or_direct manager_or_new
build self = elim self.dns_cache [
  | none ↦ none
  | some cache ↦ elim self.authenticator [
    | none ↦ none
    | some auth ↦ elim self.stats [
      | none ↦ none
      | some stats ↦ elim self.conn_config [
        | none ↦ none
        | some config ↦ some (record {
          authenticator = auth;
          stats = stats;
          router = router_or_direct cache self.router;
          conn_manager = manager_or_new self.conn_manager;
          conn_config = config;
          dns_cache = cache;
        })
      ]
    ]
  ]
]
