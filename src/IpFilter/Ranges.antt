-- ===== src/IpFilter/Ranges.antt =====
-- The filter against the ranges of addresses that it stands for.
use server_naive_rs.Common.{
  ℕ, ◌+◌, ◌-◌, ◌*◌, ◌/◌, ◌^◌, ◌<◌, ◌≡◌, refl, arith, Bool, false, ◌&&◌, ◌||◌, ◌==◌, leb, bit_and,
}
use server_naive_rs.Common.Bits.{bit_and-c0, bit_and-fe00, bit_and-ffc0}
use server_naive_rs.IpFilter.{Ipv4Addr, Ipv6Addr, is_private_ipv4, is_private_ipv6, to_ipv6_mapped}

pub record IsIpv4 (ip : Ipv4Addr) : Type 0 where
  pub a_u8 : ip.a < 256
  pub b_u8 : ip.b < 256
  pub c_u8 : ip.c < 256
  pub d_u8 : ip.d < 256

-- The address as a 32-bit number.
pub to_bits : Ipv4Addr → ℕ
to_bits ip = ip.a * 2 ^ 24 + ip.b * 2 ^ 16 + ip.c * 2 ^ 8 + ip.d

-- `network/bits`, with the network given by its octets.
abbrev in_network : ℕ → ℕ → ℕ → ℕ → ℕ → ℕ → Bool
in_network x a b c d bits =
    x / 2 ^ (32 - bits) == (a * 2 ^ 24 + b * 2 ^ 16 + c * 2 ^ 8 + d) / 2 ^ (32 - bits)

-- The special-purpose networks that are blocked.
pub is_blocked : ℕ → Bool
is_blocked x =
    in_network x 127 0 0 0 8
    || (in_network x 10 0 0 0 8 || in_network x 172 16 0 0 12 || in_network x 192 168 0 0 16)
    || in_network x 169 254 0 0 16
    || in_network x 0 0 0 0 8
    || in_network x 100 64 0 0 10
    || in_network x 192 0 0 0 24
    || in_network x 255 255 255 255 32
    || in_network x 224 0 0 0 4

module _ (ip : Ipv4Addr) (v : IsIpv4 ip) where
  net_127 : (ip.a == 127) ≡ in_network (to_bits ip) 127 0 0 0 8
  unfolding to_bits
  net_127 = ground arith

  net_10 : (ip.a == 10) ≡ in_network (to_bits ip) 10 0 0 0 8
  unfolding to_bits
  net_10 = ground arith

  net_172 : (ip.a == 172 && leb 16 ip.b && leb ip.b 31) ≡ in_network (to_bits ip) 172 16 0 0 12
  unfolding to_bits
  net_172 = ground arith

  net_192_168 : (ip.a == 192 && ip.b == 168) ≡ in_network (to_bits ip) 192 168 0 0 16
  unfolding to_bits
  net_192_168 = ground arith

  net_169 : (ip.a == 169 && ip.b == 254) ≡ in_network (to_bits ip) 169 254 0 0 16
  unfolding to_bits
  net_169 = ground arith

  net_0 : (ip.a == 0) ≡ in_network (to_bits ip) 0 0 0 0 8
  unfolding to_bits
  net_0 = ground arith

  net_100 : (ip.a == 100 && bit_and ip.b 0xc0 == 64) ≡ in_network (to_bits ip) 100 64 0 0 10
  unfolding to_bits
  net_100 = rw (bit_and-c0 ip.b v.b_u8) (ground arith)

  net_192_0 : (ip.a == 192 && ip.b == 0 && ip.c == 0) ≡ in_network (to_bits ip) 192 0 0 0 24
  unfolding to_bits
  net_192_0 = ground arith

  net_255 :
      (ip.a == 255 && ip.b == 255 && ip.c == 255 && ip.d == 255)
      ≡ in_network (to_bits ip) 255 255 255 255 32
  unfolding to_bits
  net_255 = ground arith

  net_224 : (leb 224 ip.a && leb ip.a 239) ≡ in_network (to_bits ip) 224 0 0 0 4
  unfolding to_bits
  net_224 = ground arith

-- For octets below 256, `is_private_ipv4` blocks an address exactly if its 32 bits lie in one of
-- the networks that `is_blocked` lists.
pub is_private_ipv4_ranges :
    (ip : Ipv4Addr) → IsIpv4 ip → is_private_ipv4 ip ≡ is_blocked (to_bits ip)
unfolding is_private_ipv4 is_blocked
is_private_ipv4_ranges ip v = rw (
  net_127 ip v,
  net_10 ip v,
  net_172 ip v,
  net_192_168 ip v,
  net_169 ip v,
  net_0 ip v,
  net_100 ip v,
  net_192_0 ip v,
  net_255 ip v,
  net_224 ip v,
)

-- For a first segment below 65536, `is_private_ipv6` blocks ::1, fc00::/7 and fe80::/10, and
-- nothing else.
pub is_private_ipv6_ranges :
    (ip : Ipv6Addr)
    → ip.s0 < 65536
    → is_private_ipv6 ip ≡ (
        ip.s0 == 0
          && ip.s1 == 0
          && ip.s2 == 0
          && ip.s3 == 0
          && ip.s4 == 0
          && ip.s5 == 0
          && ip.s6 == 0
          && ip.s7 == 1
        || leb 0xfc00 ip.s0 && leb ip.s0 0xfdff
        || leb 0xfe80 ip.s0 && leb ip.s0 0xfebf)
unfolding is_private_ipv6
is_private_ipv6_ranges ip h =
    rw (bit_and-fe00 ip.s0 h, bit_and-ffc0 ip.s0 h, ula ip.s0 h, local ip.s0 h)
  where
    ula : (x : ℕ) → x < 65536 → (x / 512 * 512 == 0xfc00) ≡ (leb 0xfc00 x && leb x 0xfdff)
    ula x lt = ground arith

    local : (x : ℕ) → x < 65536 → (x / 64 * 64 == 0xfe80) ≡ (leb 0xfe80 x && leb x 0xfebf)
    local x lt = ground arith

-- No IPv4-mapped IPv6 address is blocked, whatever the IPv4 address in it.
pub mapped_not_blocked : (ip : Ipv4Addr) → is_private_ipv6 (to_ipv6_mapped ip) ≡ false
unfolding is_private_ipv6 to_ipv6_mapped
mapped_not_blocked ip = refl
