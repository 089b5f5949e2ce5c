-- ===== src/Server/Defaults.antt =====
-- What a built server has, and what it falls back to.
use server_naive_rs.Common.{
  ℕ, ◌≡◌, refl, sym, ◌∙◌, Bool, true, false, ◌&&◌, ◌||◌, List, Option, none, some, if◌then◌else◌,
  All, ◌⊎◌, inl, inr, subst,
}
use server_naive_rs.Address.{IpAddr, Address, is_domain}
use server_naive_rs.Dns.{DnsCache}
use server_naive_rs.Dns.Check.{candidates, any_private, filled, IsPublic, any_private-All}
use server_naive_rs.Router.{OutboundHandler, OutboundType, direct, reject}
use server_naive_rs.Router.Safety.{is_empty, direct_route_lem}
use server_naive_rs.Config.{ConnConfig}
use server_naive_rs.Relay.Bidirectional.{Recorded}
use server_naive_rs.Server.{Server, ServerBuilder, router_or_direct, manager_or_new, build}

-- A router that connects directly only to targets all of whose addresses pass the filter.
abbrev pub IsGuarded : {D : Type 0} → DnsCache → (Address → OutboundType D) → Type 0
IsGuarded {D} cache router =
    (target : Address) (resolved : Option (List IpAddr)) (dialer : Option (OutboundHandler D))
    → router target ≡ direct resolved dialer
    → All IsPublic (candidates cache target) × (dialer ≡ none)

pub direct-IsGuarded :
    {D : Type 0} (cache : DnsCache) → IsGuarded {D = D} cache (router_or_direct cache none)
unfolding router_or_direct
direct-IsGuarded {D} cache target resolved dialer e =
    go (any_private (candidates cache target))
      (is_domain target && is_empty (candidates cache target)) refl
      (sym (direct_route_lem (record { block_private_ip = true; dns_cache = cache }) target refl)
        ∙ e)
  where
    go :
        (x y : Bool)
        → any_private (candidates cache target) ≡ x
        → ◌≡◌ {A = OutboundType D}
            (if x || y
              then reject
              else direct
                  (if is_domain target then filled (candidates cache target) else none)
                  none)
            (direct resolved dialer)
        → All IsPublic (candidates cache target) × (dialer ≡ none)
    go true y p q = cc
    go false true p q = cc
    go false false p q = (any_private-All (candidates cache target) p, cc)

-- What `build` gives: all that it was given, or the panic for a part that is missing.
abbrev pub Built : {D S : Type 0} → ServerBuilder D S → Option (Server D S) → Type 0
Built self none =
    (self.dns_cache ≡ none)
    ⊎ (self.authenticator ≡ none)
    ⊎ (self.stats ≡ none)
    ⊎ (self.conn_config ≡ none)
Built self (some server) =
    (self.authenticator ≡ some server.authenticator)
    × (self.stats ≡ some server.stats)
    × (self.conn_config ≡ some server.conn_config)
    × (self.dns_cache ≡ some server.dns_cache)
    × (server.conn_manager ≡ manager_or_new self.conn_manager)
    × (self.router ≡ none → IsGuarded server.dns_cache server.router)

-- A server is built unless the cache, the authenticator, the collector or the connection settings are
-- missing. It has the parts that it was given and a new registry if it was given none; given no router,
-- it connects directly only to targets all of whose addresses pass the filter, and without a dialer.
pub build-Built : {D S : Type 0} (self : ServerBuilder D S) → Built self (build self)
unfolding build
build-Built {D} {S} self =
    go self.dns_cache self.authenticator self.stats self.conn_config refl refl refl refl
  where
    guarded :
        (cache : DnsCache)
        → self.router ≡ none
        → IsGuarded cache (router_or_direct cache self.router)
    guarded cache e =
        subst (λ o. IsGuarded cache (router_or_direct cache o)) (sym e) (direct-IsGuarded cache)

    go :
        (c : Option DnsCache) (a : Option (List ℕ → Option ℕ)) (t : Option (Recorded → S))
        (n : Option ConnConfig)
        → self.dns_cache ≡ c
        → self.authenticator ≡ a
        → self.stats ≡ t
        → self.conn_config ≡ n
        → Built self (elim c [
          | none ↦ none
          | some cache ↦ elim a [
            | none ↦ none
            | some auth ↦ elim t [
              | none ↦ none
              | some stats ↦ elim n [
                | none ↦ none
                | some config ↦ some (record {
                  authenticator = auth;
                  stats = stats;
                  router = router_or_direct cache self.router;
                  conn_manager = manager_or_new self.conn_manager;
                  conn_config = config;
                  dns_cache = cache;
                })
              ]
            ]
          ]
        ])
    go none a t n p q r s = inl p
    go (some cache) none t n p q r s = inr (inl q)
    go (some cache) (some auth) none n p q r s = inr (inr (inl r))
    go (some cache) (some auth) (some stats) none p q r s = inr (inr (inr s))
    go (some cache) (some auth) (some stats) (some config) p q r s =
        (q, r, s, p, refl, guarded cache)
