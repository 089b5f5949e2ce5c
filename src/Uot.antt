-- ===== src/Uot.antt =====
-- uot.rs: UDP packets over the tunnel. A stream is the list of the bytes that it brings before it
-- ends; `read_exact` and its kin fail where the stream ends early. Text is the list of its bytes.
pub mod RoundTrip
pub mod Relaying
mod Tests
use server_naive_rs.Common.{
  ℕ, zero, suc, ◌+◌, ◌*◌, ◌/◌, ◌%◌, Bool, true, false, ◌==◌, ◌&&◌, ltb, leb, not, List, [], ◌∷◌,
  ◌++◌, length, take, drop, map, Option, none, some, if◌then◌else◌,
}
use server_naive_rs.IpFilter.{Ipv4Addr, Ipv6Addr}
use server_naive_rs.Address.{IpAddr, v4, v6, SocketAddr}
use server_naive_rs.Dns.{DnsError, DnsResult, found, failed, DnsCache}

pub data UotVersion : Type 0 where
  version1 version2 : UotVersion

-- std: how addresses are printed and read, and which bytes are UTF-8.
pub record Text : Type 0 where
  pub show_v4 : Ipv4Addr → List ℕ
  pub show_v6 : Ipv6Addr → List ℕ
  pub parse_ip : List ℕ → Option IpAddr
  pub is_utf8 : List ℕ → Bool

-- The errors without their texts.
pub data UotError : Type 0 where
  unexpected_eof invalid_fqdn no_address : UotError
  unknown_type : ℕ → UotError
  dns : DnsError → UotError

pub data Result (A : Type 0) : Type 0 where
  got : A → Result A
  fails : UotError → Result A

abbrev pub and_then : {A B : Type 0} → Result A → (A → Result B) → Result B
and_then (got a) k = k a
and_then (fails e) k = fails e

-- A value read, and the rest of the stream.
abbrev pub Read : Type 0 → Type 0
Read A = Result (A × List ℕ)

unfoldable pub read_exact : ℕ → List ℕ → Read (List ℕ)
read_exact n bytes =
    if ltb (length bytes) n then fails unexpected_eof else got (take n bytes, drop n bytes)

unfoldable pub read_u8 : List ℕ → Read ℕ
read_u8 [] = fails unexpected_eof
read_u8 (b ∷ rest) = got (b, rest)

unfoldable pub read_u16 : List ℕ → Read ℕ
read_u16 [] = fails unexpected_eof
read_u16 (a ∷ []) = fails unexpected_eof
read_u16 (a ∷ b ∷ rest) = got (a * 256 + b, rest)

-- `write_u16`, of a number that is cut to 16 bits.
abbrev pub u16_be : ℕ → List ℕ
u16_be n = (n / 256 % 256) ∷ (n % 256) ∷ []

unfoldable pub ipv4_from : List ℕ → Ipv4Addr
ipv4_from (a ∷ b ∷ c ∷ d ∷ rest) = record { a = a; b = b; c = c; d = d }
ipv4_from _ = record { a = 0; b = 0; c = 0; d = 0 }

unfoldable pub ipv6_from : List ℕ → Ipv6Addr
ipv6_from (a0 ∷ b0 ∷ a1 ∷ b1 ∷ a2 ∷ b2 ∷ a3 ∷ b3 ∷ a4 ∷ b4 ∷ a5 ∷ b5 ∷ a6 ∷ b6 ∷ a7 ∷ b7 ∷ rest) =
    record {
      s0 = a0 * 256 + b0;
      s1 = a1 * 256 + b1;
      s2 = a2 * 256 + b2;
      s3 = a3 * 256 + b3;
      s4 = a4 * 256 + b4;
      s5 = a5 * 256 + b5;
      s6 = a6 * 256 + b6;
      s7 = a7 * 256 + b7;
    }
ipv6_from _ = record { s0 = 0; s1 = 0; s2 = 0; s3 = 0; s4 = 0; s5 = 0; s6 = 0; s7 = 0 }

unfoldable pub octets4 : Ipv4Addr → List ℕ
octets4 ip = ip.a ∷ ip.b ∷ ip.c ∷ ip.d ∷ []

unfoldable pub octets6 : Ipv6Addr → List ℕ
octets6 ip =
    u16_be ip.s0
    ++ u16_be ip.s1
    ++ u16_be ip.s2
    ++ u16_be ip.s3
    ++ u16_be ip.s4
    ++ u16_be ip.s5
    ++ u16_be ip.s6
    ++ u16_be ip.s7

module _ (text : Text) where
  -- The three kinds of address, behind the type byte.
  unfoldable pub read_v4 : List ℕ → Read (List ℕ × ℕ)
  unfolding read_exact read_u16 ipv4_from
  read_v4 bytes = and_then (read_exact 4 bytes) (λ (ip, rest).
      and_then (read_u16 rest) (λ (port, rest'). got ((text.show_v4 (ipv4_from ip), port), rest')))

  unfoldable pub read_v6 : List ℕ → Read (List ℕ × ℕ)
  unfolding read_exact read_u16 ipv6_from
  read_v6 bytes = and_then (read_exact 16 bytes) (λ (ip, rest).
      and_then (read_u16 rest) (λ (port, rest'). got ((text.show_v6 (ipv6_from ip), port), rest')))

  unfoldable pub read_fqdn : List ℕ → Read (List ℕ × ℕ)
  unfolding read_exact read_u8 read_u16
  read_fqdn bytes = and_then (read_u8 bytes) (λ (len, rest).
      and_then (read_exact len rest) (λ (domain, rest').
        and_then (read_u16 rest') (λ (port, rest'').
          if text.is_utf8 domain then got ((domain, port), rest'') else fails invalid_fqdn)))

  unfoldable pub read_socks_addr : List ℕ → Read (List ℕ × ℕ)
  unfolding read_u8 read_v4 read_v6 read_fqdn
  read_socks_addr bytes = and_then (read_u8 bytes) (λ (ty, rest).
      if ty == 0x01
      then read_v4 rest
      else if ty == 0x04
      then read_v6 rest
      else if ty == 0x03
      then read_fqdn rest
      else fails (unknown_type ty))

  unfoldable pub read_addr_parser : List ℕ → Read (List ℕ × ℕ)
  unfolding read_u8 read_v4 read_v6 read_fqdn
  read_addr_parser bytes = and_then (read_u8 bytes) (λ (ty, rest).
      if ty == 0x00
      then read_v4 rest
      else if ty == 0x01
      then read_v6 rest
      else if ty == 0x02
      then read_fqdn rest
      else fails (unknown_type ty))

  unfoldable pub first_address : DnsResult → Result SocketAddr
  first_address (failed e) = fails (dns e)
  first_address (found []) = fails no_address
  first_address (found (sa ∷ rest)) = got sa

  unfoldable pub resolve_host : DnsCache → List ℕ → ℕ → Result SocketAddr
  unfolding first_address
  resolve_host cache host port = elim (text.parse_ip host) [
    | some ip ↦ got (record { ip = ip; port = port })
    | none ↦ first_address (cache.resolve_with_port_iter host port)
  ]

  -- The packet's destination, unless the socket is connected.
  unfoldable pub read_dest : DnsCache → Bool → List ℕ → Read (Option SocketAddr)
  unfolding read_addr_parser resolve_host
  read_dest cache true bytes = got (none, bytes)
  read_dest cache false bytes = and_then (read_addr_parser bytes) (λ ((host, port), rest).
      and_then (resolve_host cache host port) (λ dest. got (some dest, rest)))

  -- Behind the length: what is sent, or nothing of an empty packet.
  unfoldable pub read_payload :
      Option SocketAddr → ℕ → List ℕ → Read (Option (Option SocketAddr × List ℕ))
  unfolding read_exact
  read_payload dest len bytes =
      if len == 0
      then got (none, bytes)
      else and_then (read_exact len bytes) (λ (payload, rest). got (some (dest, payload), rest))

  -- One packet of the input.
  unfoldable pub read_packet : DnsCache → Bool → List ℕ → Read (Option (Option SocketAddr × List ℕ))
  unfolding read_dest read_u16 read_payload
  read_packet cache is_connect bytes =
      and_then (read_dest cache is_connect bytes)
        (λ (dest, rest). and_then (read_u16 rest) (λ (len, rest'). read_payload dest len rest'))

  -- The input loop, where every send succeeds and nobody cancels: the datagrams sent until an error
  -- ends it, and that error. `none` means that the fuel ran out.
  unfoldable pub input_loop :
      DnsCache → Bool → ℕ → List ℕ → Option (List (Option SocketAddr × List ℕ) × UotError)
  unfolding read_packet
  input_loop cache is_connect zero bytes = none
  input_loop cache is_connect (suc fuel) bytes = elim (read_packet cache is_connect bytes) [
    | fails e ↦ some ([], e)
    | got (sent, rest) ↦ elim (input_loop cache is_connect fuel rest) [
      | none ↦ none
      | some (more, e) ↦ some (elim sent [ none ↦ more | some datagram ↦ datagram ∷ more ], e)
    ]
  ]

  -- What `handle_uot_stream` reads first: whether the socket is connected, and to what.
  unfoldable pub read_request : DnsCache → UotVersion → List ℕ → Read (Bool × Option SocketAddr)
  unfolding read_u8 read_socks_addr resolve_host
  read_request cache version1 bytes = got ((false, none), bytes)
  read_request cache version2 bytes = and_then (read_u8 bytes) (λ (flag, rest).
      and_then (read_socks_addr rest) (λ ((host, port), rest').
        if flag == 0
        then got ((false, none), rest')
        else and_then (resolve_host cache host port) (λ dest. got ((true, some dest), rest'))))

unfoldable pub write_addr_parser : IpAddr → ℕ → List ℕ
unfolding octets4 octets6
write_addr_parser (v4 ip) port = 0x00 ∷ octets4 ip ++ u16_be port
write_addr_parser (v6 ip) port = 0x01 ∷ octets6 ip ++ u16_be port

unfoldable pub write_uot_packet : SocketAddr → List ℕ → Bool → List ℕ
unfolding write_addr_parser
write_uot_packet from data_bytes is_connect =
    (if is_connect then [] else write_addr_parser from.ip from.port)
    ++ (u16_be (length data_bytes) ++ data_bytes)
