-- ===== src/Address/Authority.antt =====
-- `Address::from_authority` of core/address.rs. What std does with text is a parameter.
use server_naive_rs.Common.{ℕ, ◌==◌, List, [], ◌∷◌, Option, none, some, if◌then◌else◌}
use server_naive_rs.IpFilter.{Ipv4Addr, Ipv6Addr}
use server_naive_rs.Address.{Address, ipv4, ipv6, domain}

-- std's parsers, and `str::trim`.
pub record Parsing : Type 0 where
  pub trim : List ℕ → List ℕ
  pub parse_u16 : List ℕ → Option ℕ
  pub parse_v4 : List ℕ → Option Ipv4Addr
  pub parse_v6 : List ℕ → Option Ipv6Addr

unfoldable pub and_some : {A B : Type 0} → Option A → (A → Option B) → Option B
and_some none k = none
and_some (some a) k = k a

-- What stands before and behind the first such byte, and the last.
unfoldable pub split_first : ℕ → List ℕ → Option (List ℕ × List ℕ)
unfolding and_some
split_first c [] = none
split_first c (b ∷ bytes) =
    let rest = split_first c bytes in
    if b == c
    then some ([], bytes)
    else and_some rest (λ (before, behind). some (b ∷ before, behind))

unfoldable pub split_last : ℕ → List ℕ → Option (List ℕ × List ℕ)
split_last c [] = none
split_last c (b ∷ bytes) = elim (split_last c bytes) [
  | some (before, behind) ↦ some (b ∷ before, behind)
  | none ↦ if b == c then some ([], bytes) else none
]

unfoldable pub strip_colon : List ℕ → Option (List ℕ)
strip_colon [] = none
strip_colon (b ∷ bytes) = if b == b':' then some bytes else none

-- Behind `[`.
unfoldable pub bracketed : Parsing → List ℕ → Option Address
unfolding split_first strip_colon and_some
bracketed p bytes = and_some (split_first b']' bytes) (λ (host, rest).
    and_some (strip_colon rest) (λ port_str.
      and_some (p.parse_u16 (p.trim port_str))
        (λ port. and_some (p.parse_v6 host) (λ ip. some (ipv6 ip port)))))

unfoldable pub plain_authority : Parsing → List ℕ → Option Address
unfolding split_last and_some
plain_authority p bytes = and_some (split_last b':' bytes) (λ (host, port_str).
    and_some (p.parse_u16 port_str) (λ port. elim (p.parse_v4 host) [
      | some ip ↦ some (ipv4 ip port)
      | none ↦ some (domain host port)
    ]))

unfoldable pub from_authority : Parsing → List ℕ → Option Address
unfolding bracketed plain_authority
from_authority p [] = plain_authority p []
from_authority p (b ∷ bytes) =
    if b == b'[' then bracketed p bytes else plain_authority p (b ∷ bytes)
