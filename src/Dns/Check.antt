-- ===== src/Dns/Check.antt =====
-- What `check_private_and_resolve` answers, in terms of the addresses that a target stands for.
use server_naive_rs.Common.{
  ◌≡◌, refl, ◌∙◌, arith, Bool, true, false, ◌||◌, ◌&&◌, not, List, [], ◌∷◌, ◌++◌, map, Option, none,
  some, if◌then◌else◌, append_assoc, append-nil, All, Bool-cases, inl, inr,
}
use server_naive_rs.Address.{IpAddr, v4, v6, SocketAddr, Address, ipv4, ipv6, domain, is_domain}
use server_naive_rs.Dns.{
  DnsResult, found, failed, DnsCache, is_private_ip, scan, scan_result, check_private_and_resolve,
}

abbrev pub addresses_found : DnsResult → List IpAddr
addresses_found (found sas) = map (λ sa. sa.ip) sas
addresses_found (failed e) = []

-- The address that a literal is, and all that a name resolves to.
unfoldable pub candidates : DnsCache → Address → List IpAddr
candidates cache (ipv4 ip port) = v4 ip ∷ []
candidates cache (ipv6 ip port) = v6 ip ∷ []
candidates cache (domain host port) = addresses_found (cache.resolve_with_port_iter host port)

unfoldable pub any_private : List IpAddr → Bool
any_private [] = false
any_private (ip ∷ ips) = is_private_ip ip || any_private ips

-- A list with something in it.
unfoldable pub filled : {A : Type 0} → List A → Option (List A)
filled [] = none
filled (x ∷ xs) = some (x ∷ xs)

scan_lem :
    (sas : List SocketAddr) (public : List IpAddr)
    → scan sas public ≡ (
        if any_private (map (λ sa. sa.ip) sas)
        then (true, none)
        else (false, filled (public ++ map (λ sa. sa.ip) sas)))
unfolding scan any_private filled
scan_lem [] [] = refl
scan_lem [] (ip ∷ public) = rw append-nil
scan_lem (sa ∷ sas) public = elim (Bool-cases (is_private_ip sa.ip)) [
  | inl yes_private ↦ rw yes_private
  | inr is_public ↦ rw (
    is_public,
    scan_lem sas (public ++ sa.ip ∷ []),
    append_assoc public (sa.ip ∷ []) (map (λ s. s.ip) sas),
  )
]

split :
    (b : Bool) (ips : Option (List IpAddr))
    → if◌then◌else◌ {A = Bool × Option (List IpAddr)} b (true, none) (false, ips)
      ≡ (b, (if not b then ips else none))
split true ips = refl
split false ips = refl

-- The first answer is whether a candidate is private; the second is the candidates of a name that
-- resolves to something, none of it private.
pub check_private_and_resolve_lem :
    (cache : DnsCache) (addr : Address)
    → let ips = candidates cache addr in
      check_private_and_resolve cache addr
      ≡ (any_private ips, (if is_domain addr && not (any_private ips) then filled ips else none))
unfolding check_private_and_resolve candidates any_private
check_private_and_resolve_lem cache (ipv4 ip port) = ground arith
check_private_and_resolve_lem cache (ipv6 ip port) = ground arith
check_private_and_resolve_lem cache (domain host port) = go (cache.resolve_with_port_iter host port)
  where
    go :
        (r : DnsResult)
        → scan_result r ≡ (
          any_private (addresses_found r),
          (if not (any_private (addresses_found r)) then filled (addresses_found r) else none),
        )
    go (failed e) = unfold filled in refl
    go (found sas) = scan_lem sas [] ∙ split (any_private (map (λ sa. sa.ip) sas)) _

abbrev pub IsPublic : IpAddr → Type 0
IsPublic ip = is_private_ip ip ≡ false

pub any_private-All : (ips : List IpAddr) → any_private ips ≡ false → All IsPublic ips
unfolding any_private
any_private-All [] h = tt
any_private-All (ip ∷ ips) h = (ground arith, any_private-All ips (ground arith))
