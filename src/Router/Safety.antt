-- ===== src/Router/Safety.antt =====
-- Under `block_private_ip` no router sends a target to a direct connection unless every address
-- that it stands for passes the filter, and a name only with the addresses that were checked.
use server_naive_rs.Common.{
  ◌≡◌, refl, sym, ap, ◌∙◌, arith, Bool, true, false, ◌||◌, ◌&&◌, not, List, [], ◌∷◌, Option, none,
  some, if◌then◌else◌, All, Bool-cases, inl, inr, ◌≢◌,
}
use server_naive_rs.Address.{IpAddr, Address, ipv4, ipv6, domain, is_domain}
use server_naive_rs.Dns.{DnsCache, check_private_and_resolve}
use server_naive_rs.Dns.Check.{
  candidates, any_private, filled, check_private_and_resolve_lem, IsPublic, any_private-All,
}
use server_naive_rs.Router.{
  OutboundHandler, OutboundType, is_none, custom_dialer, direct, reject, socks5, http,
}
use server_naive_rs.Router.Direct
use server_naive_rs.Router.Direct.{DirectRouter, route_checked}
use server_naive_rs.Router.Acl
use server_naive_rs.Router.Acl.{
  AclRouter, direct_decision, decide, route_addr_with_resolved, route_unblocked, match_host,
}

abbrev pub is_empty : List IpAddr → Bool
is_empty [] = true
is_empty (ip ∷ ips) = false

-- The check's answer, for candidates of which `p` says whether one is private.
abbrev answer : Bool → Address → List IpAddr → Bool × Option (List IpAddr)
answer p addr ips = (p, (if is_domain addr && not p then filled ips else none))

route_checked-answer :
    {D : Type 0} (p : Bool) (addr : Address) (ips : List IpAddr)
    → route_checked {D = D} addr (answer p addr ips) ≡ (
        if p || (is_domain addr && is_empty ips)
        then reject
        else direct (if is_domain addr then filled ips else none) none)
unfolding route_checked filled
route_checked-answer true addr ips = refl
route_checked-answer false (ipv4 ip port) ips = refl
route_checked-answer false (ipv6 ip port) ips = refl
route_checked-answer false (domain host port) [] = refl
route_checked-answer false (domain host port) (ip ∷ ips) = refl

-- The whole of the direct router under `block_private_ip`: it rejects a target with a private
-- candidate and a name without candidates, and connects to all else, a name with its candidates.
pub direct_route_lem :
    {D : Type 0} (self : DirectRouter) (addr : Address)
    → self.block_private_ip ≡ true
    → let ips = candidates self.dns_cache addr in
      Direct.route {D = D} self addr ≡ (
        if any_private ips || (is_domain addr && is_empty ips)
        then reject
        else direct (if is_domain addr then filled ips else none) none)
unfolding Direct.route
direct_route_lem self addr h =
    rw (h, check_private_and_resolve_lem self.dns_cache addr)
      (route_checked-answer (any_private (candidates self.dns_cache addr)) addr
        (candidates self.dns_cache addr))

-- What a direct connection may be given.
pub record IsSafe (cache : DnsCache) (addr : Address) (resolved : Option (List IpAddr))
    : Type 0 where
  pub public : All IsPublic (candidates cache addr)
  pub checked : resolved ≡ (if is_domain addr then some (candidates cache addr) else none)
  pub known : candidates cache addr ≢ []

-- A direct decision passes the checked addresses on, and is not made on a name without any.
module _ {D : Type 0} (self : AclRouter D) (addr : Address) (ips resolved : Option (List IpAddr))
    (dialer : Option (OutboundHandler D)) (h : self.block_private_ip ≡ true) where
  abbrev Passed : Type 0
  Passed = (resolved ≡ ips) × ((is_none ips && is_domain addr) ≡ false)

  direct_decision-Passed :
      (d : Option (OutboundHandler D))
      → direct_decision self addr ips d ≡ direct resolved dialer
      → Passed
  unfolding direct_decision
  direct_decision-Passed d e = elim (Bool-cases (is_none ips && is_domain addr)) [
    | inl bad ↦ cc (rw (h, bad) at e)
    | inr good ↦ (ground (arith, rw (h, good) at e), good)
  ]

  decide-Passed :
      (o : Option (OutboundHandler D)) → decide self addr ips o ≡ direct resolved dialer → Passed
  unfolding decide
  decide-Passed none e = direct_decision-Passed none e
  decide-Passed (some (direct d custom)) e =
      direct_decision-Passed (custom_dialer (direct d custom)) e
  decide-Passed (some (socks5 d udp)) e = cc
  decide-Passed (some (http d)) e = cc
  decide-Passed (some (reject d)) e = cc

filled-some :
    (ips : List IpAddr) → is_none (filled ips) ≡ false → (filled ips ≡ some ips) × (ips ≢ [])
unfolding filled is_none
filled-some [] h = cc
filled-some (ip ∷ ips) h = (refl, λ e. cc)

answer-IsSafe :
    (cache : DnsCache) (addr : Address) (resolved : Option (List IpAddr))
    → any_private (candidates cache addr) ≡ false
    → resolved ≡ (answer false addr (candidates cache addr)).1
    → (is_none (answer false addr (candidates cache addr)).1 && is_domain addr) ≡ false
    → IsSafe cache addr resolved
unfolding is_none
answer-IsSafe cache (ipv4 ip port) resolved e r n = record {
  public = any_private-All _ e;
  checked = r;
  known = unfold candidates in λ q. cc;
}
answer-IsSafe cache (ipv6 ip port) resolved e r n = record {
  public = any_private-All _ e;
  checked = r;
  known = unfold candidates in λ q. cc;
}
answer-IsSafe cache (domain host port) resolved e r n =
    let f = filled-some (candidates cache (domain host port)) (no_name _ n) in
    record { public = any_private-All _ e; checked = r ∙ f.0; known = f.1 }
  where
    no_name : (o : Option (List IpAddr)) → (is_none o && true) ≡ false → is_none o ≡ false
    no_name none h = h
    no_name (some x) h = refl

-- Whatever the rules are, an ACL router that blocks private addresses makes a connection direct,
-- with or without a dialer, only for a target all of whose addresses pass the filter, which are
-- some; and it passes on exactly the addresses checked for a name, none for a literal.
pub acl_route-IsSafe :
    {D : Type 0} (self : AclRouter D) (addr : Address) (resolved : Option (List IpAddr))
    (dialer : Option (OutboundHandler D))
    → self.block_private_ip ≡ true
    → Acl.route self addr ≡ direct resolved dialer
    → IsSafe self.dns_cache addr resolved
unfolding Acl.route route_unblocked
acl_route-IsSafe self addr resolved dialer h r =
    go (any_private (candidates self.dns_cache addr)) refl (
      ap (route_unblocked self addr) (sym (check_private_and_resolve_lem self.dns_cache addr))
      ∙ sym blocked
      ∙ r)
  where
    blocked :
        Acl.route self addr
        ≡ route_unblocked self addr (check_private_and_resolve self.dns_cache addr)
    blocked =
        ap
          (λ b.
            if b
            then route_unblocked self addr (check_private_and_resolve self.dns_cache addr)
            else route_addr_with_resolved self addr none)
          h

    go :
        (p : Bool)
        → any_private (candidates self.dns_cache addr) ≡ p
        → route_unblocked self addr (answer p addr (candidates self.dns_cache addr))
          ≡ direct resolved dialer
        → IsSafe self.dns_cache addr resolved
    go true e q = cc
    go false e q =
        let d =
          decide-Passed self addr (answer false addr (candidates self.dns_cache addr)).1 resolved
            dialer h (match_host self.engine addr) q in
        answer-IsSafe self.dns_cache addr resolved e d.0 d.1

given_direct :
    {D : Type 0} (cache : DnsCache) (addr : Address) (resolved : Option (List IpAddr))
    (dialer : Option (OutboundHandler D)) (p : Bool) (ips : List IpAddr)
    → candidates cache addr ≡ ips
    → if◌then◌else◌ {A = OutboundType D}
        (p || (is_domain addr && is_empty ips))
        reject
        (direct (if is_domain addr then filled ips else none) none)
      ≡ direct resolved dialer
    → (p ≡ false) × (resolved ≡ (if is_domain addr then some ips else none)) × (ips ≢ [])
unfolding filled candidates
given_direct cache addr resolved dialer true ips c e = cc
given_direct cache (ipv4 ip port) resolved dialer false ips c e = (refl, ground arith, λ q. cc)
given_direct cache (ipv6 ip port) resolved dialer false ips c e = (refl, ground arith, λ q. cc)
given_direct cache (domain host port) resolved dialer false [] c e = cc
given_direct cache (domain host port) resolved dialer false (ip ∷ ips) c e =
    (refl, ground arith, λ q. cc)

-- The same of the direct router.
pub direct_route-IsSafe :
    {D : Type 0} (self : DirectRouter) (addr : Address) (resolved : Option (List IpAddr))
    (dialer : Option (OutboundHandler D))
    → self.block_private_ip ≡ true
    → Direct.route self addr ≡ direct resolved dialer
    → IsSafe self.dns_cache addr resolved
direct_route-IsSafe self addr resolved dialer h r =
    let g =
      given_direct self.dns_cache addr resolved dialer
        (any_private (candidates self.dns_cache addr)) (candidates self.dns_cache addr) refl
        (sym (direct_route_lem self addr h) ∙ r) in
    record { public = any_private-All _ g.0; checked = g.1; known = g.2 }
