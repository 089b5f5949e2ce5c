-- ===== src/Uot/Tests.antt =====
-- Runs of the framing of packets, and its theorems at them.
use server_naive_rs.Common.{
  ℕ, zero, suc, ◌≡◌, refl, arith, true, false, List, [], ◌∷◌, Option, none, some,
}
use server_naive_rs.Address.{IpAddr, v4, v6, SocketAddr}
use server_naive_rs.Dns.{DnsCache, failed, not_found}
use server_naive_rs.Uot.{
  Text, unexpected_eof, got, read_request, version2, input_loop, write_uot_packet,
}
use server_naive_rs.Uot.Relaying.{
  Sockets, UotEvent, input_reads, sends, output_receives, writes_all, kick, output_cancelled,
  input_cancelled, handle_uot_stream, ran,
}
use server_naive_rs.Uot.Relaying.Outcome.{UotGood, handle_uot_stream-UotGood}
use server_naive_rs.Uot.RoundTrip.{IsText, IsSocketAddr, stream, datagrams, input_loop-packets}

-- A way to print addresses: a tag and the numbers.
abbrev parse_tagged : List ℕ → Option IpAddr
parse_tagged (zero ∷ a ∷ b ∷ c ∷ d ∷ []) = some (v4 (record { a = a; b = b; c = c; d = d }))
parse_tagged (suc n ∷ s0 ∷ s1 ∷ s2 ∷ s3 ∷ s4 ∷ s5 ∷ s6 ∷ s7 ∷ []) =
    some (v6 (record { s0 = s0; s1 = s1; s2 = s2; s3 = s3; s4 = s4; s5 = s5; s6 = s6; s7 = s7 }))
parse_tagged _ = none

abbrev tagged : Text
tagged = record {
  show_v4 = λ ip. 0 ∷ ip.a ∷ ip.b ∷ ip.c ∷ ip.d ∷ [];
  show_v6 = λ ip. 1 ∷ ip.s0 ∷ ip.s1 ∷ ip.s2 ∷ ip.s3 ∷ ip.s4 ∷ ip.s5 ∷ ip.s6 ∷ ip.s7 ∷ [];
  parse_ip = parse_tagged;
  is_utf8 = λ bytes. true;
}

tagged-IsText : IsText tagged
tagged-IsText = record { v4_back = λ ip v. refl; v6_back = λ ip v. refl }

abbrev no_names : DnsCache
no_names = record { resolve_with_port_iter = λ host port. failed not_found }

abbrev resolver : SocketAddr
resolver = record { ip = v4 (record { a = 8; b = 8; c = 8; d = 8 }); port = 53 }

resolver-IsSocketAddr : IsSocketAddr resolver
resolver-IsSocketAddr = (
  record { a_u8 = omega arith; b_u8 = omega arith; c_u8 = omega arith; d_u8 = omega arith },
  omega arith,
)

-- Two packets with an empty one between them.
abbrev sample : List (SocketAddr × List ℕ)
sample = (resolver, b'h' ∷ b'i' ∷ []) ∷ (resolver, []) ∷ (resolver, b'o' ∷ []) ∷ []

sample_run :
    input_loop tagged no_names false 40 (stream false sample)
    ≡ some ((some resolver, b'h' ∷ b'i' ∷ []) ∷ (some resolver, b'o' ∷ []) ∷ [], unexpected_eof)
unfolding input_loop write_uot_packet
sample_run = refl

request_run :
    read_request tagged no_names version2 (1 ∷ 1 ∷ 8 ∷ 8 ∷ 8 ∷ 8 ∷ 0 ∷ 53 ∷ 7 ∷ [])
    ≡ got ((true, some resolver), 7 ∷ [])
unfolding read_request
request_run = refl

input_loop-packets_example :
    input_loop tagged no_names false 40 (stream false sample)
    ≡ some (datagrams false sample, unexpected_eof)
unfolding write_uot_packet
input_loop-packets_example =
    input_loop-packets tagged tagged-IsText no_names false sample 40
      (
        (resolver-IsSocketAddr, omega arith),
        ((resolver-IsSocketAddr, omega arith), ((resolver-IsSocketAddr, omega arith), tt)),
      )
      (omega arith)

abbrev both_bound : Sockets
both_bound = record { bind_v6 = true; bind_v4 = true; connect = λ dest. true }

-- A datagram each way, and a kick that both loops see.
abbrev exchange : List UotEvent
exchange =
    input_reads (sends 2)
    ∷ output_receives resolver (b'o' ∷ []) writes_all
    ∷ kick
    ∷ output_cancelled
    ∷ input_cancelled
    ∷ []

exchanged :
    handle_uot_stream tagged no_names both_bound version2
      (1 ∷ 1 ∷ 8 ∷ 8 ∷ 8 ∷ 8 ∷ 0 ∷ 53 ∷ 0 ∷ 2 ∷ b'h' ∷ b'i' ∷ [])
      exchange
    ≡ ran (some resolver) (
        some (record {
          left = [];
          input_open = false;
          output_open = false;
          cancel = true;
          inner = true;
          sent = (none, b'h' ∷ b'i' ∷ []) ∷ [];
          uploads = 2 ∷ [];
          written = 0 ∷ 1 ∷ b'o' ∷ [];
          downloads = 1 ∷ [];
          shut = true;
        }))
unfolding handle_uot_stream
exchanged = refl

handle_uot_stream-UotGood_example :
    UotGood tagged no_names both_bound version2
      (1 ∷ 1 ∷ 8 ∷ 8 ∷ 8 ∷ 8 ∷ 0 ∷ 53 ∷ 0 ∷ 2 ∷ b'h' ∷ b'i' ∷ [])
      exchange
      (handle_uot_stream tagged no_names both_bound version2
        (1 ∷ 1 ∷ 8 ∷ 8 ∷ 8 ∷ 8 ∷ 0 ∷ 53 ∷ 0 ∷ 2 ∷ b'h' ∷ b'i' ∷ [])
        exchange)
handle_uot_stream-UotGood_example =
    handle_uot_stream-UotGood tagged no_names both_bound version2
      (1 ∷ 1 ∷ 8 ∷ 8 ∷ 8 ∷ 8 ∷ 0 ∷ 53 ∷ 0 ∷ 2 ∷ b'h' ∷ b'i' ∷ []) exchange
