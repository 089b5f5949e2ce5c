-- ===== src/Startup/Started.antt =====
-- What `main` of main.rs leaves when it fails to start, and what it runs when it starts.
use server_naive_rs.Common.{
  ℕ, ◌≡◌, refl, sym, ap, subst, true, List, [], ◌∷◌, ◌++◌, Option, none, some,
}
use server_naive_rs.Address.{Address}
use server_naive_rs.Router.{OutboundType}
use server_naive_rs.ConfigAuto.{resolve}
use server_naive_rs.Config.{
  CliArgs, Checked, passed, rejected, validate, NaiveConfig, NodeConfigEnum, parse_naive_config,
  conn_config, from_remote,
}
use server_naive_rs.Server.{
  Server, builder, set_authenticator, set_stats, set_router, set_conn_manager, set_conn_config,
  set_dns_cache, build, router_or_direct, manager_or_new,
}
use server_naive_rs.Startup.{
  PanelCall, fetch_config, initialize, fetch_users, unregister, World, Trace, and_then, quiet, call,
  proceed, is_passed, is_udp, Running, build_router, build_server, with_router, with_users,
  registered, with_config, with_node, with_api, validated, start,
}
use server_naive_rs.Startup.Guarded.{Guards, Blocks, blocks, GuardsSome, build_router-Guards}

-- The calls of a start that fails: a part of those of one that succeeds, up to the failing step.
abbrev pub FailedCalls : List PanelCall → Type 0
FailedCalls [] = Unit
FailedCalls (fetch_config ∷ []) = Unit
FailedCalls (fetch_config ∷ initialize port ∷ []) = Unit
FailedCalls (fetch_config ∷ initialize port ∷ fetch_users ∷ []) = Unit
FailedCalls _ = ◌≡◌ {A = ℕ} 0 1

pub some_inj : {A : Type 0} {a b : A} → some a ≡ some b → a ≡ b
some_inj e = cc

and_then-Behind :
    {A B : Type 0} (P : Trace B → Type 0) (m : Trace A) (k : A → Trace B)
    → (m.1 ≡ none → P (m.0, none))
    → ((a : A) → m.1 ≡ some a → P (m.0 ++ (k a).0, (k a).1))
    → P (and_then m k)
unfolding and_then
and_then-Behind P (calls, none) k failed went = failed refl
and_then-Behind P (calls, some a) k failed went = went a refl

module _ {X D U S : Type 0} (w : World X D U S) where
  -- What runs behind a start: the settings of the command line and of the panel, the panel's users, the
  -- registry of `main`, and under `block_private_ip` a router that keeps private addresses out.
  abbrev pub Runs : CliArgs → Running D S → Type 0
  Runs cli running =
      (validate w.platform cli ≡ passed)
      × ((users : Option U) × (w.panel.users ≡ some users)
          × (running.server.authenticator ≡ w.panel.authenticate users))
      × (running.server.conn_config
          ≡ conn_config cli (resolve w.parallelism w.memory_kb w.nofile cli.max_connections).value)
      × (running.server.conn_manager ≡ w.manager)
      × (running.server.dns_cache ≡ w.dns_cache)
      × Blocks cli.block_private_ip w.dns_cache running.server.router

  abbrev pub Started : CliArgs → Trace (Running D S) → Type 0
  Started cli (calls, none) = FailedCalls calls
  Started cli (calls, some running) =
      (calls ≡ fetch_config ∷ initialize running.config.port ∷ fetch_users ∷ []) × Runs cli running

  built :
      (cli : CliArgs) (users : Option U) (router : Address → OutboundType D) (server : Server D S)
      → build_server w cli users router ≡ some server
      → server ≡ record {
        authenticator = w.panel.authenticate users;
        stats = w.stats;
        router = router;
        conn_manager = w.manager;
        conn_config =
            conn_config cli (resolve w.parallelism w.memory_kb w.nofile cli.max_connections).value;
        dns_cache = w.dns_cache;
      }
  unfolding build_server builder set_authenticator set_stats set_router set_conn_manager
      set_conn_config set_dns_cache build router_or_direct manager_or_new
  built cli users router server e = sym (some_inj e)

  -- The calls made so far, and what follows.
  abbrev Behind : CliArgs → List PanelCall → Trace (Running D S) → Type 0
  Behind cli calls t = Started cli (calls ++ t.0, t.1)

  module _ (cli : CliArgs) (valid : validate w.platform cli ≡ passed) where
    with_router-Started :
        (naive : NaiveConfig) (users : Option U)
        → w.panel.users ≡ some users
        → (router : Address → OutboundType D)
        → (cli.block_private_ip ≡ true → Guards w.dns_cache router)
        → Behind cli
            (fetch_config ∷ initialize naive.server_port ∷ fetch_users ∷ [])
            (with_router w cli naive users router)
    unfolding with_router from_remote
    with_router-Started naive users known router guards =
        and_then-Behind
          (Behind cli (fetch_config ∷ initialize naive.server_port ∷ fetch_users ∷ []))
          (quiet (build_server w cli users router))
          (λ server. quiet (
            some (record {
              server = server;
              config = from_remote naive cli;
              use_h3 = is_udp naive.network;
            })))
          (λ e. tt)
          (λ server e.
            let q = built cli users router server e in
            (
              refl,
              (
                valid,
                (users, known, ap (λ s. s.authenticator) q),
                ap (λ s. s.conn_config) q,
                ap (λ s. s.conn_manager) q,
                ap (λ s. s.dns_cache) q,
                blocks cli.block_private_ip w.dns_cache server.router
                    (λ h. subst (Guards w.dns_cache) (sym (ap (λ s. s.router) q)) (guards h)),
              ),
            ))

    with_users-Started :
        (naive : NaiveConfig) (users : Option U)
        → w.panel.users ≡ some users
        → Behind cli
            (fetch_config ∷ initialize naive.server_port ∷ fetch_users ∷ [])
            (with_users w cli naive users)
    unfolding with_users from_remote
    with_users-Started naive users known =
        and_then-Behind
          (Behind cli (fetch_config ∷ initialize naive.server_port ∷ fetch_users ∷ []))
          (quiet (
            build_router w.platform w.outside w.rules w.files (from_remote naive cli)
              cli.refresh_geodata w.dns_cache))
          (with_router w cli naive users) (λ e. tt)
          (λ router e. with_router-Started naive users known router (λ h.
            subst
              (GuardsSome w.platform w.outside w.rules w.files (from_remote naive cli)
                cli.refresh_geodata w.dns_cache h)
              e
              (build_router-Guards w.platform w.outside w.rules w.files (from_remote naive cli)
                cli.refresh_geodata w.dns_cache h)))

    registered-Started :
        (naive : NaiveConfig)
        → Behind cli (fetch_config ∷ initialize naive.server_port ∷ []) (registered w cli naive tt)
    unfolding registered
    registered-Started naive =
        and_then-Behind (Behind cli (fetch_config ∷ initialize naive.server_port ∷ []))
          (call fetch_users w.panel.users) (with_users w cli naive) (λ e. tt)
          (λ users known. with_users-Started naive users known)

    with_config-Started :
        (naive : NaiveConfig) → Behind cli (fetch_config ∷ []) (with_config w cli naive)
    unfolding with_config
    with_config-Started naive =
        and_then-Behind (Behind cli (fetch_config ∷ []))
          (call (initialize naive.server_port) (proceed (w.panel.initializes naive.server_port)))
          (registered w cli naive) (λ e. tt) (λ done e. registered-Started naive)

    with_node-Started :
        (node : NodeConfigEnum) → Behind cli (fetch_config ∷ []) (with_node w cli node)
    unfolding with_node
    with_node-Started node =
        and_then-Behind (Behind cli (fetch_config ∷ []))
          (quiet (parse_naive_config w.from_json node)) (with_config w cli) (λ e. tt)
          (λ naive e. with_config-Started naive)

    validated-Started : Started cli (validated w cli tt)
    unfolding validated with_api
    validated-Started =
        and_then-Behind (Started cli) (quiet (proceed w.panel.creates)) (with_api w cli) (λ e. tt)
          (λ done e.
            and_then-Behind (Started cli) (call fetch_config w.panel.config) (with_node w cli)
              (λ e. tt) (λ node e. with_node-Started node))

  -- `main` starts a server only behind the fetch of its settings, the registration of its port and the
  -- fetch of the users, in this order, and with arguments that are valid. The server has the
  -- panel's users, the settings of the command line, the registry and the cache of `main`, and under
  -- `block_private_ip` a router that connects directly only to targets all of whose addresses pass the
  -- filter. A start that fails has made a part of these calls, up to the failing step.
  pub start-Started : (cli : CliArgs) → Started cli (start w cli)
  unfolding start
  start-Started cli =
      and_then-Behind (Started cli) (quiet (proceed (is_passed (validate w.platform cli))))
        (validated w cli) (λ e. tt)
        (λ done e. validated-Started cli (passed_of (validate w.platform cli) e))
    where
      passed_of : {o : Unit {0}} (c : Checked) → proceed (is_passed c) ≡ some o → c ≡ passed
      passed_of passed e = refl
      passed_of (rejected x) e = cc

  -- What `main` as a whole has called the panel for, by whether it has started.
  abbrev pub Calls : Option (Running D S) → List PanelCall → Type 0
  Calls none calls = FailedCalls calls
  Calls (some running) calls =
      calls ≡ fetch_config ∷ initialize running.config.port ∷ fetch_users ∷ unregister ∷ []
