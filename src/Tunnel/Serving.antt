-- ===== src/Tunnel/Serving.antt =====
-- process_h3_request_quiche of handler.rs as a whole: the decision on a request, the answer, the tunnel.
use server_naive_rs.Common.{
  ℕ, ◌≡◌, ◌≢◌, refl, sym, subst, Bool, true, false, List, Option, none, All,
}
use server_naive_rs.Stream.{AsyncRead, AsyncWrite}
use server_naive_rs.Address.{SocketAddr, Address, host}
use server_naive_rs.Address.Authority.{Parsing}
use server_naive_rs.Router.{OutboundHandler, OutboundType, direct, reject, proxy}
use server_naive_rs.Router.Acl
use server_naive_rs.Router.Acl.{AclRouter}
use server_naive_rs.Auth.{Decoding}
use server_naive_rs.Request.{
  Request, Decision, answered, dropped, opened, process_request, IsAdmitted,
  process_request-IsAdmitted,
}
use server_naive_rs.Connection.{ConnectionManager}
use server_naive_rs.Relay.Bidirectional.{Sleep}
use server_naive_rs.Tunnel.{
  AclAddr, acl_addr, Dial, through, Network, Polls, TunnelEnd, proxy_connect, by_route, tunnel,
  process_tunnel, detect_uot,
}
use server_naive_rs.Tunnel.Dials.{
  PublicDials, tunnel-PublicDials, ByName, tunnel-ByName, connected_dials,
}

-- An answer by status alone, an error, or the answer 200 and what became of the tunnel.
pub data Served (A R D : Type 0) : Type 0 where
  refused : ℕ → Served A R D
  failed : Served A R D
  served : Address → ℕ → OutboundType D → List (Dial D) × Option (TunnelEnd A R) → Served A R D

module _ {A R D S : Type 0} (ra : AsyncRead A) (wa : AsyncWrite A) (rr : AsyncRead R)
    (wr : AsyncWrite R) (sleep : Sleep S) (idle : S) (buffer_size : ℕ) (net : Network D R)
    (p : Parsing) (decoding : Decoding) (authenticate : List ℕ → Option ℕ)
    (self : AclRouter D) where
  -- `answers` says whether the answer 200 can be sent.
  unfoldable pub decided :
      (ConnectionManager → ConnectionManager)
      → Polls
      → ConnectionManager
      → ℕ
      → SocketAddr
      → A
      → Bool
      → Decision D
      → Served A R D
  unfolding process_tunnel
  decided meanwhile polls manager now peer_addr padded answers (answered status) = refused status
  decided meanwhile polls manager now peer_addr padded answers dropped = failed
  decided meanwhile polls manager now peer_addr padded false (opened target user_id outbound) =
      failed
  decided meanwhile polls manager now peer_addr padded true (opened target user_id outbound) =
      served target user_id outbound
        (process_tunnel ra wa rr wr sleep idle buffer_size net meanwhile polls manager now peer_addr
          user_id padded target outbound).0

  unfoldable pub process_h3_request :
      (ConnectionManager → ConnectionManager)
      → Polls
      → ConnectionManager
      → ℕ
      → SocketAddr
      → A
      → Bool
      → Request
      → Served A R D
  unfolding decided process_request
  process_h3_request meanwhile polls manager now peer_addr padded answers req =
      decided meanwhile polls manager now peer_addr padded answers
        (process_request p decoding authenticate (Acl.route self) req)

  -- All connections are tried through one handler, to which the name of the target is left.
  abbrev pub ThroughProxy : OutboundHandler D → List (Dial D) → Type 0
  ThroughProxy handler dials =
      All (λ dial. (addr : AclAddr) × (dial ≡ through handler addr) × (addr.resolve_info ≡ none))
        dials

  abbrev pub Kept :
      Polls → Address → OutboundType D → List (Dial D) × Option (TunnelEnd A R) → Type 0
  Kept polls target (direct resolved dialer) o =
      PublicDials ra wa rr wr sleep idle buffer_size net self target polls o
  Kept polls target (proxy handler) o =
      ByName net polls (detect_uot (host net.printing target))
        (λ (dials, end). ThroughProxy handler dials) o
  Kept polls target reject o = ⊥

  abbrev pub Guarded : Polls → Request → Served A R D → Type 0
  Guarded polls req (refused status) = Unit {0}
  Guarded polls req failed = Unit {0}
  Guarded polls req (served target user_id outbound o) =
      IsAdmitted p decoding authenticate (Acl.route self) req target user_id outbound
      × Kept polls target outbound o

  tunnel-ThroughProxy :
      (handler : OutboundHandler D) (polls : Polls) (user_id : ℕ) (padded : A) (target : Address)
      → Kept polls target (proxy handler) (
          tunnel ra wa rr wr sleep idle buffer_size net polls user_id padded target (proxy handler))
  unfolding by_route proxy_connect acl_addr
  tunnel-ThroughProxy handler polls user_id padded target =
      tunnel-ByName ra wa rr wr sleep idle buffer_size net polls user_id padded target
        (proxy handler) (λ (dials, end). ThroughProxy handler dials)
        (subst (ThroughProxy handler)
          (sym (
            connected_dials ra wa rr wr sleep idle buffer_size net self target polls user_id padded
              (proxy_connect net target handler).0 (proxy_connect net target handler).1))
          ((_, refl, refl), tt))

  -- Where the ACL router blocks private addresses, whatever request comes in: a tunnel is opened only for
  -- an admitted one. Unless its target is a magic name of UDP over TCP, on a direct route every
  -- connection that it tries goes to an address that the filter passes, and on a proxy's route only the
  -- proxy is dialed, and the target's name is left to it, whether the relay ends or not. For a magic
  -- name, on either route, only datagrams are sent, of whose addresses nothing is said, and the stream
  -- ends as one of UDP over TCP may.
  pub process_h3_request-Guarded :
      (blocks : self.block_private_ip ≡ true) (meanwhile : ConnectionManager → ConnectionManager)
      (polls : Polls) (manager : ConnectionManager) (now : ℕ) (peer_addr : SocketAddr) (padded : A)
      (answers : Bool) (req : Request)
      → Guarded polls req
          (process_h3_request meanwhile polls manager now peer_addr padded answers req)
  unfolding process_h3_request
  process_h3_request-Guarded blocks meanwhile polls manager now peer_addr padded answers req =
      go answers (process_request p decoding authenticate (Acl.route self) req) refl
    where
      kept :
          (target : Address) (user_id : ℕ) (outbound : OutboundType D)
          → outbound ≡ Acl.route self target
          → outbound ≢ reject
          → Kept polls target outbound
              (process_tunnel ra wa rr wr sleep idle buffer_size net meanwhile polls manager now
                peer_addr user_id padded target outbound).0
      kept target user_id (direct resolved dialer) e n =
          tunnel-PublicDials ra wa rr wr sleep idle buffer_size net self target resolved dialer
            blocks (sym e) polls user_id padded
      kept target user_id (proxy handler) e n =
          tunnel-ThroughProxy handler polls user_id padded target
      kept target user_id reject e n = n refl

      go :
          (b : Bool) (o : Decision D)
          → process_request p decoding authenticate (Acl.route self) req ≡ o
          → Guarded polls req (decided meanwhile polls manager now peer_addr padded b o)
      go b (answered status) e = tt
      go b dropped e = tt
      go false (opened target user_id outbound) e = tt
      go true (opened target user_id outbound) e =
          let admitted =
            process_request-IsAdmitted p decoding authenticate (Acl.route self) req target user_id
              outbound e in
          (admitted, kept target user_id outbound admitted.allowed.0 admitted.allowed.1)
