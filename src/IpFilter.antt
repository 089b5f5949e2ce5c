-- ===== src/IpFilter.antt =====
-- core/ip_filter.rs: which addresses the server refuses to connect to. An IPv4 address is its four
-- octets, an IPv6 address its eight segments. The tests that std::net has on them come first.
pub mod Ranges
use server_naive_rs.Common.{ℕ, ◌+◌, ◌*◌, Bool, ◌&&◌, ◌||◌, ◌==◌, leb, bit_and}

pub record Ipv4Addr : Type 0 where
  pub a : ℕ
  pub b : ℕ
  pub c : ℕ
  pub d : ℕ

pub record Ipv6Addr : Type 0 where
  pub s0 : ℕ
  pub s1 : ℕ
  pub s2 : ℕ
  pub s3 : ℕ
  pub s4 : ℕ
  pub s5 : ℕ
  pub s6 : ℕ
  pub s7 : ℕ

abbrev is_loopback : Ipv4Addr → Bool
is_loopback ip = ip.a == 127

abbrev is_private : Ipv4Addr → Bool
is_private ip =
    ip.a == 10 || ip.a == 172 && leb 16 ip.b && leb ip.b 31 || ip.a == 192 && ip.b == 168

abbrev is_link_local : Ipv4Addr → Bool
is_link_local ip = ip.a == 169 && ip.b == 254

abbrev is_broadcast : Ipv4Addr → Bool
is_broadcast ip = ip.a == 255 && ip.b == 255 && ip.c == 255 && ip.d == 255

abbrev is_multicast : Ipv4Addr → Bool
is_multicast ip = leb 224 ip.a && leb ip.a 239

unfoldable pub is_private_ipv4 : Ipv4Addr → Bool
is_private_ipv4 ip =
    is_loopback ip
    || is_private ip
    || is_link_local ip
    || ip.a == 0
    || ip.a == 100 && bit_and ip.b 0xc0 == 64
    || ip.a == 192 && ip.b == 0 && ip.c == 0
    || is_broadcast ip
    || is_multicast ip

abbrev is_loopback6 : Ipv6Addr → Bool
is_loopback6 ip =
    ip.s0 == 0
    && ip.s1 == 0
    && ip.s2 == 0
    && ip.s3 == 0
    && ip.s4 == 0
    && ip.s5 == 0
    && ip.s6 == 0
    && ip.s7 == 1

unfoldable pub is_ipv6_ula : Ipv6Addr → Bool
is_ipv6_ula ip = bit_and ip.s0 0xfe00 == 0xfc00

unfoldable pub is_ipv6_link_local : Ipv6Addr → Bool
is_ipv6_link_local ip = bit_and ip.s0 0xffc0 == 0xfe80

unfoldable pub is_private_ipv6 : Ipv6Addr → Bool
unfolding is_ipv6_ula is_ipv6_link_local
is_private_ipv6 ip = is_loopback6 ip || is_ipv6_ula ip || is_ipv6_link_local ip

-- `to_ipv6_mapped` of std: ::ffff:a.b.c.d, by which a dual-stack socket reaches a.b.c.d.
pub to_ipv6_mapped : Ipv4Addr → Ipv6Addr
to_ipv6_mapped ip = record {
  s0 = 0;
  s1 = 0;
  s2 = 0;
  s3 = 0;
  s4 = 0;
  s5 = 0xffff;
  s6 = ip.a * 256 + ip.b;
  s7 = ip.c * 256 + ip.d;
}
