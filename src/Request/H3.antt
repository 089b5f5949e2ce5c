-- ===== src/Request/H3.antt =====
-- process_h3_request_quiche of handler.rs, up to the tunnel: the list of headers as tokio-quiche gives
-- it, and the frames handed to the stream's sender.
use server_naive_rs.Common.{
  ℕ, ◌≡◌, ap, Bool, true, false, List, [], ◌∷◌, Option, none, some, if◌then◌else◌,
}
use server_naive_rs.Address.{Address}
use server_naive_rs.Address.Authority.{Parsing, and_some, from_authority}
use server_naive_rs.Router.{OutboundType}
use server_naive_rs.Auth.{Decoding, parse_basic_auth}
use server_naive_rs.Request.{Request, process_request}
use server_naive_rs.Request.Answers.{
  same_bytes, find, is_some, when, Flow, on, returned, bind, require, demand, pass_route, Outcome,
  ended, tunnels, digits, connect, padding, proxy_authorization, credential_of, carried, checks,
  checks-process_request,
}

-- `OutboundFrame`.
pub data H3Frame : Type 0 where
  headers : List (List ℕ × List ℕ) → H3Frame
  body : List ℕ → Bool → H3Frame

-- ":method", ":authority", ":status".
abbrev pub method_name : List ℕ
method_name = b':' ∷ b'm' ∷ b'e' ∷ b't' ∷ b'h' ∷ b'o' ∷ b'd' ∷ []

abbrev pub authority_name : List ℕ
authority_name = b':' ∷ b'a' ∷ b'u' ∷ b't' ∷ b'h' ∷ b'o' ∷ b'r' ∷ b'i' ∷ b't' ∷ b'y' ∷ []

abbrev pub status_name : List ℕ
status_name = b':' ∷ b's' ∷ b't' ∷ b'a' ∷ b't' ∷ b'u' ∷ b's' ∷ []

-- The headers of the status, and an empty body that ends the stream.
unfoldable pub send_status : ℕ → List H3Frame
send_status status = headers ((status_name, digits status) ∷ []) ∷ body [] true ∷ []

unfoldable pub or_empty : Option (List ℕ) → List ℕ
or_empty none = []
or_empty (some value) = value

module _ {D : Type 0} (p : Parsing) (d : Decoding) (authenticate : List ℕ → Option ℕ)
    (route : Address → OutboundType D) where
  -- The checks, in their order.
  unfoldable pub h3_checks : List (List ℕ × List ℕ) → Flow H3Frame (Address × ℕ × OutboundType D)
  unfolding bind require demand pass_route credential_of find same_bytes or_empty send_status
      and_some
  h3_checks header_list =
      bind
        (require (same_bytes (or_empty (find header_list method_name)) connect) (send_status 405))
        (λ _. bind (require (is_some (find header_list padding)) (send_status 400)) (λ _.
          bind (demand (and_some (find header_list authority_name) (when d.is_utf8)) [])
            (λ authority. bind (demand (from_authority p authority) []) (λ target.
              bind
                (demand (and_some (find header_list proxy_authorization) (when d.is_utf8))
                  (send_status 407))
                (λ auth_header.
                  bind (demand (credential_of (parse_basic_auth d auth_header)) (send_status 407))
                    (λ credential.
                      bind (demand (authenticate credential) (send_status 407)) (λ user_id.
                        pass_route target user_id (route target) (send_status 403))))))))

  -- The answer 200 with its padding header; `accepted` says whether the sender takes it.
  unfoldable pub h3_respond :
      Bool → List ℕ → Flow H3Frame (Address × ℕ × OutboundType D) → List H3Frame × Outcome D
  h3_respond accepted padding_value (returned frames result) = (frames, ended result)
  h3_respond accepted padding_value (on (target, user_id, outbound)) = (
    headers ((status_name, digits 200) ∷ (padding, padding_value) ∷ []) ∷ [],
    if accepted then tunnels target user_id outbound else ended false,
  )

  unfoldable pub h3_entry : Bool → List ℕ → List (List ℕ × List ℕ) → List H3Frame × Outcome D
  unfolding h3_checks h3_respond
  h3_entry accepted padding_value header_list =
      h3_respond accepted padding_value (h3_checks header_list)

  -- What the handler reads of the headers.
  abbrev pub h3_view : List (List ℕ × List ℕ) → Request
  h3_view header_list = record {
    is_connect = same_bytes (or_empty (find header_list method_name)) connect;
    has_padding = is_some (find header_list padding);
    authority = and_some (find header_list authority_name) (when d.is_utf8);
    auth_header = and_some (find header_list proxy_authorization) (when d.is_utf8);
  }

  pub h3_entry_lem :
      (accepted : Bool) (padding_value : List ℕ) (header_list : List (List ℕ × List ℕ))
      → h3_entry accepted padding_value header_list
        ≡ h3_respond accepted padding_value
            (carried send_status (process_request p d authenticate route (h3_view header_list)))
  unfolding h3_entry h3_checks checks
  h3_entry_lem accepted padding_value header_list =
      ap (h3_respond accepted padding_value)
        (checks-process_request send_status p d authenticate route (h3_view header_list))
