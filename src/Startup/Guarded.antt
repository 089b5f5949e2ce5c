-- ===== src/Startup/Guarded.antt =====
-- The router that `build_router` of main.rs makes under `block_private_ip`.
use Prim.Native.String.{String}
use server_naive_rs.Common.{
  ◌≡◌, refl, Bool, true, false, not, List, Option, none, some, if◌then◌else◌, All,
}
use server_naive_rs.Address.{IpAddr, Address}
use server_naive_rs.Dns.{DnsCache}
use server_naive_rs.Dns.Check.{candidates, IsPublic}
use server_naive_rs.Router.{OutboundHandler, OutboundType, direct, reject, proxy}
use server_naive_rs.Router.Acl
use server_naive_rs.Router.Direct
use server_naive_rs.Router.Safety.{acl_route-IsSafe}
use server_naive_rs.Config.{Platform, is_yaml, ServerConfig}
use server_naive_rs.Outbound.{Outside}
use server_naive_rs.Outbound.Engine
use server_naive_rs.Outbound.Engine.{AclConfig, Rules, EngineResult, engine, no_engine}
use server_naive_rs.Server.{router_or_direct}
use server_naive_rs.Server.Defaults.{direct-IsGuarded}
use server_naive_rs.Startup.{
  AclFiles, load_acl_config, acl_with_cache, direct_with_cache, acl_router, build_router,
}

-- A direct route is to a target all of whose addresses pass the filter.
abbrev pub RoutesPublic : {D : Type 0} → DnsCache → Address → OutboundType D → Type 0
RoutesPublic cache target (direct resolved dialer) = All IsPublic (candidates cache target)
RoutesPublic cache target reject = Unit
RoutesPublic cache target (proxy handler) = Unit

abbrev pub Guards : {D : Type 0} → DnsCache → (Address → OutboundType D) → Type 0
Guards {D} cache router = (target : Address) → RoutesPublic cache target (router target)

-- A router that keeps private addresses out, where this is asked for.
abbrev pub Blocks : {D : Type 0} → Bool → DnsCache → (Address → OutboundType D) → Type 0
Blocks true cache router = Guards cache router
Blocks false cache router = Unit

pub blocks :
    {D : Type 0} (b : Bool) (cache : DnsCache) (router : Address → OutboundType D)
    → (b ≡ true → Guards cache router)
    → Blocks b cache router
blocks true cache router h = h refl
blocks false cache router h = tt

pub Guards-Blocks :
    {D : Type 0} (b : Bool) (cache : DnsCache) (router : Address → OutboundType D)
    → Blocks b cache router
    → b ≡ true
    → Guards cache router
Guards-Blocks true cache router h e = h
Guards-Blocks false cache router h e = cc

guards :
    {D : Type 0} (cache : DnsCache) (router : Address → OutboundType D)
    → ((target : Address) (resolved : Option (List IpAddr)) (dialer : Option (OutboundHandler D))
        → router target ≡ direct resolved dialer
        → All IsPublic (candidates cache target))
    → Guards cache router
guards {D} cache router h target = go (router target) refl
  where
    go : (o : OutboundType D) → router target ≡ o → RoutesPublic cache target o
    go (direct resolved dialer) e = h target resolved dialer e
    go reject e = tt
    go (proxy handler) e = tt

acl-Guards :
    {D : Type 0} (self : Acl.AclRouter D)
    → self.block_private_ip ≡ true
    → Guards self.dns_cache (Acl.route self)
acl-Guards self h =
    guards self.dns_cache (Acl.route self)
      (λ target resolved dialer e. (acl_route-IsSafe self target resolved dialer h e).public)

direct-Guards :
    (D : Type 0) (cache : DnsCache) (block : Bool)
    → block ≡ true
    → Guards {D = D} cache (Direct.route (direct_with_cache block cache))
unfolding direct_with_cache router_or_direct
direct-Guards D cache true h =
    guards {D = D} cache (Direct.route (direct_with_cache true cache))
      (λ target resolved dialer e. (direct-IsGuarded cache target resolved dialer e).0)
direct-Guards D cache false h = cc

module _ {X D : Type 0} (p : Platform) (out : Outside D) (rules : Rules X D) (files : AclFiles)
    (config : ServerConfig) (refresh : Bool) (cache : DnsCache)
    (h : config.block_private_ip ≡ true) where
  abbrev pub GuardsSome : Option (Address → OutboundType D) → Type 0
  GuardsSome none = Unit
  GuardsSome (some router) = Guards cache router

  acl_router-Guards :
      (path : String) → GuardsSome (acl_router p out rules files config refresh cache path)
  unfolding acl_router acl_with_cache
  acl_router-Guards path = go (p.exists path) (is_yaml p path) (load_acl_config files path)
    where
      loaded :
          (r : EngineResult D)
          → GuardsSome (elim r [
            | no_engine e ↦ none
            | engine acl_engine ↦
                some (Acl.route (acl_with_cache acl_engine config.block_private_ip cache))
          ])
      loaded (no_engine e) = tt
      loaded (engine acl_engine) =
          acl-Guards (acl_with_cache acl_engine config.block_private_ip cache) h

      go :
          (x y : Bool) (o : Option AclConfig)
          → GuardsSome (
              if not x then none else if not y then none else elim o [
                | none ↦ none
                | some acl_config ↦
                    elim (Engine.new out rules acl_config (some config.data_dir) refresh) [
                      | no_engine e ↦ none
                      | engine acl_engine ↦
                          some (Acl.route (acl_with_cache acl_engine config.block_private_ip cache))
                    ]
              ])
      go false y o = tt
      go true false o = tt
      go true true none = tt
      go true true (some acl_config) =
          loaded (Engine.new out rules acl_config (some config.data_dir) refresh)

  pub build_router-Guards : GuardsSome (build_router p out rules files config refresh cache)
  unfolding build_router
  build_router-Guards = go config.acl_conf_file
    where
      go :
          (o : Option String)
          → GuardsSome (elim o [
            | some acl_path ↦ acl_router p out rules files config refresh cache acl_path
            | none ↦ some (Direct.route (direct_with_cache config.block_private_ip cache))
          ])
      go none = direct-Guards D cache config.block_private_ip h
      go (some acl_path) = acl_router-Guards acl_path
