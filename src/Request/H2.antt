-- ===== src/Request/H2.antt =====
-- process_h2_request_pingora of handler.rs, up to the tunnel: the request's header as pingora gives it,
-- and the response headers written to the session.
use server_naive_rs.Common.{
  ℕ, ◌≡◌, ap, Bool, true, false, max, ◌*◌, ◌&&◌, List, [], ◌∷◌, Option, none, some, if◌then◌else◌,
}
use server_naive_rs.Address.{Address}
use server_naive_rs.Address.Authority.{Parsing, and_some, from_authority}
use server_naive_rs.Router.{OutboundType}
use server_naive_rs.Auth.{Decoding, parse_basic_auth}
use server_naive_rs.Request.{Request, process_request}
use server_naive_rs.Request.Answers.{
  same_bytes, find, is_some, when, Flow, on, returned, bind, require, demand, pass_route, Outcome,
  ended, tunnels, connect, padding, proxy_authorization, credential_of, carried, checks,
  checks-process_request,
}

-- The method, the header map, whose names are in lower case, and the authority of the URI.
pub record RequestHeader : Type 0 where
  pub method : List ℕ
  pub fields : List (List ℕ × List ℕ)
  pub uri_authority : Option (List ℕ)

-- A response header with its status and its padding, and whether it ends the stream.
pub data H2Frame : Type 0 where
  response : ℕ → Option (List ℕ) → Bool → H2Frame

-- What pingora and http answer: whether a value is text for `to_str`, and whether a response header
-- can be built with a status, takes a padding value, and can be written.
pub record Pingora : Type 0 where
  pub is_text : List ℕ → Bool
  pub builds : ℕ → Bool
  pub appends : List ℕ → Bool
  pub writes : Bool

unfoldable pub send_pingora_status : Pingora → ℕ → List H2Frame
send_pingora_status h status = if h.builds status then response status none true ∷ [] else []

module _ {D : Type 0} (h : Pingora) (p : Parsing) (d : Decoding) (authenticate : List ℕ → Option ℕ)
    (route : Address → OutboundType D) where
  -- The checks, in their order.
  unfoldable pub h2_checks : RequestHeader → Flow H2Frame (Address × ℕ × OutboundType D)
  unfolding bind require demand pass_route credential_of find same_bytes send_pingora_status
      and_some
  h2_checks req = bind (require (same_bytes req.method connect) (send_pingora_status h 405)) (λ _.
      bind (require (is_some (find req.fields padding)) (send_pingora_status h 400)) (λ _.
        bind (demand req.uri_authority []) (λ authority.
          bind (demand (from_authority p authority) []) (λ target.
            bind
              (demand (and_some (find req.fields proxy_authorization) (when h.is_text))
                (send_pingora_status h 407))
              (λ auth_header_str.
                bind
                  (demand (credential_of (parse_basic_auth d auth_header_str))
                    (send_pingora_status h 407))
                  (λ credential.
                    bind (demand (authenticate credential) (send_pingora_status h 407)) (λ user_id.
                      pass_route target user_id (route target) (send_pingora_status h 403))))))))

  -- The answer 200 with its padding header, which does not end the stream.
  unfoldable pub h2_respond :
      List ℕ → Flow H2Frame (Address × ℕ × OutboundType D) → List H2Frame × Outcome D
  h2_respond padding_value (returned frames result) = (frames, ended result)
  h2_respond padding_value (on (target, user_id, outbound)) =
      if h.builds 200 && h.appends padding_value
      then (
        response 200 (some padding_value) false ∷ [],
        if h.writes then tunnels target user_id outbound else ended false,
      )
      else ([], ended false)

  unfoldable pub h2_entry : List ℕ → RequestHeader → List H2Frame × Outcome D
  unfolding h2_checks h2_respond
  h2_entry padding_value req = h2_respond padding_value (h2_checks req)

  -- What the handler reads of the header.
  abbrev pub h2_view : RequestHeader → Request
  h2_view req = record {
    is_connect = same_bytes req.method connect;
    has_padding = is_some (find req.fields padding);
    authority = req.uri_authority;
    auth_header = and_some (find req.fields proxy_authorization) (when h.is_text);
  }

  pub h2_entry_lem :
      (padding_value : List ℕ) (req : RequestHeader)
      → h2_entry padding_value req
        ≡ h2_respond padding_value
            (carried (send_pingora_status h) (process_request p d authenticate route (h2_view req)))
  unfolding h2_entry h2_checks checks
  h2_entry_lem padding_value req =
      ap (h2_respond padding_value)
        (checks-process_request (send_pingora_status h) p d authenticate route (h2_view req))

-- The capacity of the pipe between the tunnel and the bridge: `BRIDGE_BUF` at least.
unfoldable pub duplex_buf : ℕ → ℕ
duplex_buf buffer_size = max buffer_size (64 * 1024)

-- How the tunnel's task ended: with its result, or by a panic.
pub data Joined : Type 0 where
  joined : Bool → Joined
  panicked : Joined

-- The handler's result: its early return, or, behind the bridge, that of the tunnel.
unfoldable pub h2_result : {D : Type 0} → Outcome D → Joined → Bool
h2_result (ended result) tunnel = result
h2_result (tunnels target user_id outbound) (joined result) = result
h2_result (tunnels target user_id outbound) panicked = false
