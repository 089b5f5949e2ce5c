-- ===== src/Address.antt =====
-- core/address.rs: the target of a CONNECT request. Text is the list of its bytes; the octets of
-- an address are the fields of `Ipv4Addr` and the segments of `Ipv6Addr`.
pub mod Authority
pub mod Splits
pub mod RoundTrip
mod Tests
use server_naive_rs.Common.{ℕ, List, [], ◌∷◌, ◌++◌, Bool, true, false}
use server_naive_rs.IpFilter.{Ipv4Addr, Ipv6Addr}

-- std::net::{IpAddr, SocketAddr}.
pub data IpAddr : Type 0 where
  v4 : Ipv4Addr → IpAddr
  v6 : Ipv6Addr → IpAddr

pub record SocketAddr : Type 0 where
  pub ip : IpAddr
  pub port : ℕ

pub data Address : Type 0 where
  ipv4 : Ipv4Addr → ℕ → Address
  ipv6 : Ipv6Addr → ℕ → Address
  domain : List ℕ → ℕ → Address

abbrev pub port : Address → ℕ
port (ipv4 ip p) = p
port (ipv6 ip p) = p
port (domain name p) = p

-- `matches!(addr, Address::Domain(..))`.
abbrev pub is_domain : Address → Bool
is_domain (ipv4 ip p) = false
is_domain (ipv6 ip p) = false
is_domain (domain name p) = true

-- std's printing of addresses and numbers.
pub record Printing : Type 0 where
  pub show_v4 : Ipv4Addr → List ℕ
  pub show_v6 : Ipv6Addr → List ℕ
  pub show_u16 : ℕ → List ℕ

unfoldable pub host : Printing → Address → List ℕ
host p (ipv4 ip n) = p.show_v4 ip
host p (ipv6 ip n) = p.show_v6 ip
host p (domain name n) = name

-- `Display`.
unfoldable pub display : Printing → Address → List ℕ
display p (ipv4 ip n) = p.show_v4 ip ++ (b':' ∷ p.show_u16 n)
display p (ipv6 ip n) = b'[' ∷ (p.show_v6 ip ++ (b']' ∷ b':' ∷ p.show_u16 n))
display p (domain name n) = name ++ (b':' ∷ p.show_u16 n)
