-- ===== src/Startup/Served.antt =====
-- The server that `main` of main.rs starts, at the entry points of handler.rs.
use server_naive_rs.Common.{
  ℕ, ◌≡◌, refl, sym, subst, Bool, true, false, ◌&&◌, List, All, Option, none, some,
}
use server_naive_rs.Address.{IpAddr, Address}
use server_naive_rs.Address.Authority.{Parsing}
use server_naive_rs.Dns.Check.{candidates, IsPublic}
use server_naive_rs.Router.{OutboundHandler, OutboundType, direct}
use server_naive_rs.Auth.{Decoding}
use server_naive_rs.Config.{CliArgs}
use server_naive_rs.Request.{Request, Decision, answered, dropped, opened, process_request}
use server_naive_rs.Request.Judged.{Asks, Judged, process_request-Judged}
use server_naive_rs.Request.Answers.{Outcome, tunnels, carried}
use server_naive_rs.Request.H2.{
  Pingora, RequestHeader, send_pingora_status, h2_respond, h2_entry, h2_view, h2_entry_lem,
}
use server_naive_rs.Request.H3.{send_status, h3_respond, h3_entry, h3_view, h3_entry_lem}
use server_naive_rs.Startup.{World, PanelCall, Running, start}
use server_naive_rs.Startup.Guarded.{RoutesPublic, Guards-Blocks}
use server_naive_rs.Startup.Started.{some_inj, Runs, Started, start-Started}

-- A request at one of the two entry points.
pub data Entrance : Type 0 where
  over_h3 : (accepted : Bool) (header_list : List (List ℕ × List ℕ)) → Entrance
  over_h2 : Pingora → RequestHeader → Entrance

module _ {D : Type 0} (p : Parsing) (d : Decoding) (authenticate : List ℕ → Option ℕ)
    (route : Address → OutboundType D) where
  abbrev pub result_at : List ℕ → Entrance → Outcome D
  result_at padding_value (over_h3 accepted header_list) =
      (h3_entry p d authenticate route accepted padding_value header_list).1
  result_at padding_value (over_h2 h req) = (h2_entry h p d authenticate route padding_value req).1

  abbrev pub request_at : Entrance → Request
  request_at (over_h3 accepted header_list) = h3_view p d authenticate route header_list
  request_at (over_h2 h req) = h2_view h p d authenticate route req

  -- A tunnel is a decision that was carried out.
  opened-h3 :
      (accepted : Bool) (padding_value : List ℕ) (c : Decision D) (target : Address) (user : ℕ)
      (o : OutboundType D)
      → (h3_respond p d authenticate route accepted padding_value (carried send_status c)).1
        ≡ tunnels target user o
      → c ≡ opened target user o
  unfolding h3_respond
  opened-h3 accepted padding_value (answered status) target user o e = cc
  opened-h3 accepted padding_value dropped target user o e = cc
  opened-h3 false padding_value (opened t u route') target user o e = cc
  opened-h3 true padding_value (opened t u route') target user o e = cc

  opened-h2 :
      (h : Pingora) (padding_value : List ℕ) (c : Decision D) (target : Address) (user : ℕ)
      (o : OutboundType D)
      → (h2_respond h p d authenticate route padding_value (carried (send_pingora_status h) c)).1
        ≡ tunnels target user o
      → c ≡ opened target user o
  unfolding h2_respond
  opened-h2 h padding_value (answered status) target user o e = cc
  opened-h2 h padding_value dropped target user o e = cc
  opened-h2 h padding_value (opened t u route') target user o e =
      go (h.builds 200 && h.appends padding_value) h.writes refl refl e
    where
      go :
          (x y : Bool)
          → (h.builds 200 && h.appends padding_value) ≡ x
          → h.writes ≡ y
          → (h2_respond h p d authenticate route padding_value
              (carried (send_pingora_status h) (opened t u route'))).1
            ≡ tunnels target user o
          → opened t u route' ≡ opened target user o
      go true true ex ey f = cc (rw (ex, ey) at f)
      go true false ex ey f = cc (rw (ex, ey) at f)
      go false y ex ey f = cc (rw ex at f)

module _ {X D U S : Type 0} (w : World X D U S) (p : Parsing) (d : Decoding) where
  -- The request is a user's of the panel, and names the target, all of whose addresses pass the filter.
  abbrev pub Permitted : Request → Running D S → Address → ℕ → Type 0
  Permitted req running target user =
      Asks p d running.server.authenticator running.server.router req target user
      × ((users : Option U) × (w.panel.users ≡ some users)
          × (running.server.authenticator ≡ w.panel.authenticate users))
      × All IsPublic (candidates w.dns_cache target)

  decided :
      (cli : CliArgs) (running : Running D S)
      → (start w cli).1 ≡ some running
      → cli.block_private_ip ≡ true
      → (req : Request) (target : Address) (user : ℕ) (resolved : Option (List IpAddr))
        (dialer : Option (OutboundHandler D))
      → process_request p d running.server.authenticator running.server.router req
        ≡ opened target user (direct resolved dialer)
      → Permitted req running target user
  decided cli running e h req target user resolved dialer f =
      go (start w cli) (start-Started w cli) e
    where
      judged :
          Judged p d running.server.authenticator running.server.router req
            (opened target user (direct resolved dialer))
      judged =
          subst (Judged p d running.server.authenticator running.server.router req) f
            (process_request-Judged p d running.server.authenticator running.server.router req)

      go :
          (t : List PanelCall × Option (Running D S))
          → Started w cli t
          → t.1 ≡ some running
          → Permitted req running target user
      go (calls, none) v q = cc
      go (calls, some other) (order, runs) q =
          let (valid, known, config, manager, cache, guards) =
            subst (Runs w cli) (some_inj q) runs in
          let (asks, same_route, allowed) = judged in
          (
            asks,
            known,
            subst (RoutesPublic w.dns_cache target) (sym same_route) (
                Guards-Blocks cli.block_private_ip w.dns_cache running.server.router guards h
                  target),
          )

  -- Whatever a client sends to the server that `main` has started under `block_private_ip`, over HTTP/2
  -- or HTTP/3: a tunnel with a direct route is opened only for a CONNECT request with the padding header
  -- and the credentials of one of the panel's users, to the target that it names, all of whose
  -- addresses pass the filter.
  pub started_tunnels :
      (cli : CliArgs) (running : Running D S)
      → (start w cli).1 ≡ some running
      → cli.block_private_ip ≡ true
      → (entrance : Entrance) (padding_value : List ℕ) (target : Address) (user : ℕ)
        (resolved : Option (List IpAddr)) (dialer : Option (OutboundHandler D))
      → result_at p d running.server.authenticator running.server.router padding_value entrance
        ≡ tunnels target user (direct resolved dialer)
      → Permitted
          (request_at p d running.server.authenticator running.server.router entrance)
          running
          target
          user
  started_tunnels cli running e h (over_h3 accepted header_list) padding_value target user resolved
        dialer f =
      let authenticate = running.server.authenticator in
      let route = running.server.router in
      decided cli running e h (h3_view p d authenticate route header_list) target user resolved
        dialer
        (opened-h3 p d authenticate route accepted padding_value _ target user
          (direct resolved dialer)
          (rw (result_at, h3_entry_lem p d authenticate route accepted padding_value header_list) at
            f))
  started_tunnels cli running e h (over_h2 pingora req) padding_value target user resolved dialer
        f =
      let authenticate = running.server.authenticator in
      let route = running.server.router in
      decided cli running e h (h2_view pingora p d authenticate route req) target user resolved
        dialer
        (opened-h2 p d authenticate route pingora padding_value _ target user
          (direct resolved dialer)
          (rw (result_at, h2_entry_lem pingora p d authenticate route padding_value req) at f))
