-- ===== src/Uot/RoundTrip.antt =====
-- The packets of the tunnel, written and read.
use server_naive_rs.Common.{
  ℕ, zero, suc, ◌+◌, ◌*◌, ◌/◌, ◌%◌, ◌<◌, ◌≡◌, refl, sym, ap, ◌∙◌, arith, Bool, true, false, List,
  [], ◌∷◌, ◌++◌, length, Option, none, some, if◌then◌else◌, All, take-append, drop-append,
  append_assoc, length-append,
}
use server_naive_rs.IpFilter.{Ipv4Addr, Ipv6Addr}
use server_naive_rs.IpFilter.Ranges.{IsIpv4}
use server_naive_rs.Address.{IpAddr, v4, v6, SocketAddr}
use server_naive_rs.Dns.{DnsCache}
use server_naive_rs.Uot.{
  Text, unexpected_eof, got, fails, read_exact, read_u8, read_u16, u16_be, ipv4_from, ipv6_from,
  octets4, octets6, read_v4, read_v6, read_addr_parser, resolve_host, read_dest, read_payload,
  read_packet, input_loop, write_addr_parser, write_uot_packet,
}

pub record IsIpv6 (ip : Ipv6Addr) : Type 0 where
  pub s0_u16 : ip.s0 < 65536
  pub s1_u16 : ip.s1 < 65536
  pub s2_u16 : ip.s2 < 65536
  pub s3_u16 : ip.s3 < 65536
  pub s4_u16 : ip.s4 < 65536
  pub s5_u16 : ip.s5 < 65536
  pub s6_u16 : ip.s6 < 65536
  pub s7_u16 : ip.s7 < 65536

-- std reads back the addresses that it prints.
pub record IsText (text : Text) : Type 0 where
  pub v4_back : (ip : Ipv4Addr) → IsIpv4 ip → text.parse_ip (text.show_v4 ip) ≡ some (v4 ip)
  pub v6_back : (ip : Ipv6Addr) → IsIpv6 ip → text.parse_ip (text.show_v6 ip) ≡ some (v6 ip)

abbrev pub IsIp : IpAddr → Type 0
IsIp (v4 ip) = IsIpv4 ip
IsIp (v6 ip) = IsIpv6 ip

abbrev pub IsSocketAddr : SocketAddr → Type 0
IsSocketAddr sa = IsIp sa.ip × (sa.port < 65536)

read_exact-append :
    (n : ℕ) (xs rest : List ℕ) → length xs ≡ n → read_exact n (xs ++ rest) ≡ got (xs, rest)
unfolding read_exact
read_exact-append n xs rest e =
    rw (sym e, take-append xs rest, drop-append xs rest) (ground (arith, length-append xs rest))

be : (n : ℕ) → n < 65536 → n / 256 % 256 * 256 + n % 256 ≡ n
be n h = omega arith

read_u16-be : (n : ℕ) (rest : List ℕ) → n < 65536 → read_u16 (u16_be n ++ rest) ≡ got (n, rest)
unfolding read_u16
read_u16-be n rest h = rw (be n h) refl

ipv4_from-octets : (ip : Ipv4Addr) → ipv4_from (octets4 ip) ≡ ip
unfolding ipv4_from octets4
ipv4_from-octets ip = refl

ipv6_from-octets : (ip : Ipv6Addr) → IsIpv6 ip → ipv6_from (octets6 ip) ≡ ip
unfolding ipv6_from octets6
ipv6_from-octets ip v =
    rw
      (
        be ip.s0 v.s0_u16,
        be ip.s1 v.s1_u16,
        be ip.s2 v.s2_u16,
        be ip.s3 v.s3_u16,
        be ip.s4 v.s4_u16,
        be ip.s5 v.s5_u16,
        be ip.s6 v.s6_u16,
        be ip.s7 v.s7_u16,
      )
      refl

length-octets4 : (ip : Ipv4Addr) → length (octets4 ip) ≡ 4
unfolding octets4
length-octets4 ip = refl

length-octets6 : (ip : Ipv6Addr) → length (octets6 ip) ≡ 16
unfolding octets6
length-octets6 ip = refl

abbrev shown : Text → IpAddr → List ℕ
shown text (v4 ip) = text.show_v4 ip
shown text (v6 ip) = text.show_v6 ip

module _ (text : Text) where
  read_v4-octets :
      (ip : Ipv4Addr) (port : ℕ) (rest : List ℕ)
      → port < 65536
      → read_v4 text (octets4 ip ++ (u16_be port ++ rest)) ≡ got ((text.show_v4 ip, port), rest)
  unfolding read_v4 read_u16
  read_v4-octets ip port rest h =
      rw
        (
          read_exact-append 4 (octets4 ip) (u16_be port ++ rest) (length-octets4 ip),
          be port h,
          ipv4_from-octets ip,
        )
        refl

  read_v6-octets :
      (ip : Ipv6Addr) (port : ℕ) (rest : List ℕ)
      → IsIpv6 ip
      → port < 65536
      → read_v6 text (octets6 ip ++ (u16_be port ++ rest)) ≡ got ((text.show_v6 ip, port), rest)
  unfolding read_v6 read_u16
  read_v6-octets ip port rest v h =
      rw
        (
          read_exact-append 16 (octets6 ip) (u16_be port ++ rest) (length-octets6 ip),
          be port h,
          ipv6_from-octets ip v,
        )
        refl

  read-write_addr_parser :
      (ip : IpAddr) (port : ℕ) (rest : List ℕ)
      → IsIp ip
      → port < 65536
      → read_addr_parser text (write_addr_parser ip port ++ rest)
        ≡ got ((shown text ip, port), rest)
  unfolding read_addr_parser write_addr_parser read_u8
  read-write_addr_parser (v4 ip) port rest v h =
      ap (read_v4 text) (append_assoc (octets4 ip) (u16_be port) rest)
      ∙ read_v4-octets ip port rest h
  read-write_addr_parser (v6 ip) port rest v h =
      ap (read_v6 text) (append_assoc (octets6 ip) (u16_be port) rest)
      ∙ read_v6-octets ip port rest v h

-- What a payload to `dest` sends: an empty one nothing.
abbrev sent_of : Option SocketAddr → List ℕ → Option (Option SocketAddr × List ℕ)
sent_of dest [] = none
sent_of dest (b ∷ payload) = some (dest, b ∷ payload)

-- The datagram that a packet stands for.
abbrev pub datagram : Bool → SocketAddr × List ℕ → Option (Option SocketAddr × List ℕ)
datagram is_connect (from, payload) = sent_of (if is_connect then none else some from) payload

abbrev pub datagrams : Bool → List (SocketAddr × List ℕ) → List (Option SocketAddr × List ℕ)
datagrams is_connect [] = []
datagrams is_connect (packet ∷ packets) = elim (datagram is_connect packet) [
  | none ↦ datagrams is_connect packets
  | some sent ↦ sent ∷ datagrams is_connect packets
]

abbrev pub IsPacket : SocketAddr × List ℕ → Type 0
IsPacket (from, payload) = IsSocketAddr from × (length payload < 65536)

-- The packets one behind the other.
abbrev pub stream : Bool → List (SocketAddr × List ℕ) → List ℕ
stream is_connect [] = []
stream is_connect ((from, payload) ∷ packets) =
    write_uot_packet from payload is_connect ++ stream is_connect packets

module _ (text : Text) (t : IsText text) (cache : DnsCache) where
  resolve_host-shown :
      (ip : IpAddr) (port : ℕ)
      → IsIp ip
      → resolve_host text cache (shown text ip) port ≡ got (record { ip = ip; port = port })
  unfolding resolve_host
  resolve_host-shown (v4 ip) port v = rw (resolve_host, t.v4_back ip v) refl
  resolve_host-shown (v6 ip) port v = rw (resolve_host, t.v6_back ip v) refl

  abbrev header : SocketAddr → Bool → List ℕ
  header from is_connect = if is_connect then [] else write_addr_parser from.ip from.port

  read_dest-header :
      (from : SocketAddr) (is_connect : Bool) (rest : List ℕ)
      → IsSocketAddr from
      → read_dest text cache is_connect (header from is_connect ++ rest)
        ≡ got ((if is_connect then none else some from), rest)
  unfolding read_dest
  read_dest-header from true rest v = refl
  read_dest-header from false rest v =
      rw
        (
          read-write_addr_parser text from.ip from.port rest v.0 v.1,
          resolve_host-shown from.ip from.port v.0,
        )
        refl

  read_payload_all :
      (dest : Option SocketAddr) (payload rest : List ℕ)
      → read_payload text dest (length payload) (payload ++ rest) ≡ got (sent_of dest payload, rest)
  unfolding read_payload
  read_payload_all dest [] rest = refl
  read_payload_all dest (b ∷ payload) rest =
      rw (read_exact-append (length (b ∷ payload)) (b ∷ payload) rest refl) (ground arith)

  -- For a socket address of std and a payload of at most 65535 bytes, reading what
  -- `write_uot_packet` writes gives back the packet, addressed to the same socket address where the
  -- socket is not connected, and leaves what follows it.
  pub read-write_uot_packet :
      (from : SocketAddr) (payload : List ℕ) (is_connect : Bool) (rest : List ℕ)
      → IsSocketAddr from
      → length payload < 65536
      → read_packet text cache is_connect (write_uot_packet from payload is_connect ++ rest)
        ≡ got (datagram is_connect (from, payload), rest)
  unfolding read_packet write_uot_packet read_u16
  read-write_uot_packet from payload is_connect rest v h =
      ap (read_packet text cache is_connect)
        (append_assoc (header from is_connect) (u16_be (length payload) ++ payload) rest)
      ∙ rw
          (
            read_dest-header from is_connect (u16_be (length payload) ++ payload ++ rest) v,
            be (length payload) h,
          )
          (read_payload_all (if is_connect then none else some from) payload rest)

  -- What is written is not empty.
  packet_some :
      (from : SocketAddr) (payload : List ℕ) (is_connect : Bool)
      → 0 < length (write_uot_packet from payload is_connect)
  unfolding write_uot_packet
  packet_some from payload is_connect =
      ground (arith, length-append (header from is_connect) (u16_be (length payload) ++ payload))

  read_packet-nil :
      (is_connect : Bool) → read_packet text cache is_connect [] ≡ fails unexpected_eof
  unfolding read_packet read_dest read_addr_parser read_u8 read_u16
  read_packet-nil true = refl
  read_packet-nil false = refl

  -- On any sequence of packets that `write_uot_packet` writes, of socket addresses of std and payloads
  -- of at most 65535 bytes, with sends that succeed, the input loop sends each that is not empty, whole and in order, to its address, and ends at the end of the stream; as many rounds as
  -- the stream has bytes, and one more, are enough.
  pub input_loop-packets :
      (is_connect : Bool) (packets : List (SocketAddr × List ℕ)) (fuel : ℕ)
      → All IsPacket packets
      → length (stream is_connect packets) < fuel
      → input_loop text cache is_connect fuel (stream is_connect packets)
        ≡ some (datagrams is_connect packets, unexpected_eof)
  unfolding input_loop
  input_loop-packets is_connect packets zero v h = absurd (omega arith)
  input_loop-packets is_connect [] (suc fuel) v h = rw (input_loop, read_packet-nil is_connect) refl
  input_loop-packets is_connect ((from, payload) ∷ packets) (suc fuel) v h =
      rw
        (
          input_loop,
          read-write_uot_packet from payload is_connect (stream is_connect packets) v.0.0 v.0.1,
          input_loop-packets is_connect packets fuel v.1 (
              omega (
                arith,
                packet_some from payload is_connect,
                length-append (write_uot_packet from payload is_connect)
                    (stream is_connect packets),
              )),
        )
        refl
