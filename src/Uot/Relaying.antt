-- ===== src/Uot/Relaying.antt =====
-- The two loops of `handle_uot_stream`, which run side by side: an event is what a `select!` of one of
-- them yields, or the kick of the connection. Both sockets' answers are part of the event.
pub mod Invariant
pub mod Outcome
use server_naive_rs.Common.{
  ℕ, Bool, true, false, not, ◌&&◌, ◌||◌, List, [], ◌∷◌, ◌++◌, length, take, Option, none, some,
  if◌then◌else◌,
}
use server_naive_rs.Address.{SocketAddr}
use server_naive_rs.Dns.{DnsCache}
use server_naive_rs.Uot.{
  Text, UotVersion, UotError, Result, got, fails, Read, read_packet, read_request, write_uot_packet,
}

-- `left` is what the client has sent and was not read; `cancel` and `inner` are the two tokens.
pub record UotRelay : Type 0 where
  pub left : List ℕ
  pub input_open : Bool
  pub output_open : Bool
  pub cancel : Bool
  pub inner : Bool
  pub sent : List (Option SocketAddr × List ℕ)
  pub uploads : List ℕ
  pub written : List ℕ
  pub downloads : List ℕ
  pub shut : Bool

pub data Sending : Type 0 where
  sends : ℕ → Sending
  send_fails : Sending

-- A packet written whole, or a failure behind so many bytes of it.
pub data Writing : Type 0 where
  writes_all : Writing
  fails_behind : ℕ → Writing

pub data UotEvent : Type 0 where
  kick : UotEvent
  input_reads : Sending → UotEvent
  input_cancelled : UotEvent
  output_receives : SocketAddr → List ℕ → Writing → UotEvent
  output_fails output_cancelled : UotEvent

unfoldable pub relay_start : List ℕ → UotRelay
relay_start left = record {
  left = left;
  input_open = true;
  output_open = true;
  cancel = false;
  inner = false;
  sent = [];
  uploads = [];
  written = [];
  downloads = [];
  shut = false;
}

unfoldable pub input_ended : UotRelay → UotRelay
input_ended s = record s { input_open = false; inner = true }

-- Behind its loop the output shuts the stream down.
unfoldable pub output_ended : UotRelay → UotRelay
output_ended s = record s { output_open = false; inner = true; shut = true }

unfoldable pub input_read :
    UotRelay → Sending → Read (Option (Option SocketAddr × List ℕ)) → UotRelay
unfolding input_ended
input_read s a (fails e) = input_ended s
input_read s a (got (none, rest)) = record s { left = rest }
input_read s (sends n) (got (some datagram, rest)) = record s {
  left = rest;
  sent = s.sent ++ (datagram ∷ []);
  uploads = s.uploads ++ (n ∷ []);
}
input_read s send_fails (got (some datagram, rest)) = input_ended (record s { left = rest })

unfoldable pub output_received : UotRelay → Bool → SocketAddr → List ℕ → Writing → UotRelay
unfolding output_ended write_uot_packet
output_received s is_connect from bytes writes_all = record s {
  written = s.written ++ write_uot_packet from bytes is_connect;
  downloads = s.downloads ++ (length bytes ∷ []);
}
output_received s is_connect from bytes (fails_behind n) =
    output_ended
      (record s { written = s.written ++ take n (write_uot_packet from bytes is_connect) })

abbrev pub when : Bool → UotRelay → Option UotRelay
when true s = some s
when false s = none

module _ (text : Text) (cache : DnsCache) (is_connect : Bool) where
  -- `none` where the branch of the event is off.
  unfoldable pub relay_step : UotRelay → UotEvent → Option UotRelay
  unfolding input_read output_received read_packet
  relay_step s kick = some (record s { cancel = true })
  relay_step s (input_reads a) =
      when s.input_open (input_read s a (read_packet text cache is_connect s.left))
  relay_step s input_cancelled = when (s.input_open && (s.cancel || s.inner)) (input_ended s)
  relay_step s (output_receives from bytes w) =
      when s.output_open (output_received s is_connect from bytes w)
  relay_step s output_fails = when s.output_open (output_ended s)
  relay_step s output_cancelled = when (s.output_open && (s.cancel || s.inner)) (output_ended s)

  unfoldable pub relay_run : List UotEvent → UotRelay → Option UotRelay
  unfolding relay_step
  relay_run [] s = some s
  relay_run (e ∷ events) s = elim (relay_step s e) [ none ↦ none | some s' ↦ relay_run events s' ]

-- The sockets that are bound and connected before the loops.
pub record Sockets : Type 0 where
  pub bind_v6 : Bool
  pub bind_v4 : Bool
  pub connect : SocketAddr → Bool

pub data UotOutcome : Type 0 where
  request_failed : UotError → UotOutcome
  no_socket : UotOutcome
  not_connected : SocketAddr → UotOutcome
  ran : Option SocketAddr → Option UotRelay → UotOutcome

module _ (text : Text) (cache : DnsCache) (sockets : Sockets) where
  -- Behind the socket's connection to the address of the request, if there is one.
  unfoldable pub connected_to : List UotEvent → Bool → List ℕ → Option SocketAddr → UotOutcome
  unfolding relay_run relay_start
  connected_to events is_connect rest none =
      ran none (relay_run text cache is_connect events (relay_start rest))
  connected_to events is_connect rest (some dest) =
      if sockets.connect dest
      then ran (some dest) (relay_run text cache is_connect events (relay_start rest))
      else not_connected dest

  unfoldable pub requested : List UotEvent → Read (Bool × Option SocketAddr) → UotOutcome
  unfolding connected_to
  requested events (fails e) = request_failed e
  requested events (got ((is_connect, dest), rest)) =
      if not (sockets.bind_v6 || sockets.bind_v4)
      then no_socket
      else connected_to events is_connect rest dest

  unfoldable pub handle_uot_stream : UotVersion → List ℕ → List UotEvent → UotOutcome
  unfolding requested read_request
  handle_uot_stream version bytes events = requested events (read_request text cache version bytes)
