-- ===== src/Request.antt =====
-- The decision of the two entry points of handler.rs on a CONNECT request, up to the tunnel. What
-- the packages do with text is a parameter.
pub mod Judged
pub mod Entries
pub mod Answers
pub mod H2
pub mod H3
mod Tests
mod EntryTests
use server_naive_rs.Common.{
  ℕ, ◌≡◌, ◌≢◌, refl, sym, ap, ◌∙◌, arith, Bool, true, false, ◌==◌, ◌&&◌, not, List, [], ◌∷◌, ◌++◌,
  Option, none, some, if◌then◌else◌, Bool-cases, inl, inr, Option-cases,
}
use server_naive_rs.IpFilter.{Ipv4Addr, Ipv6Addr}
use server_naive_rs.Address.{Address, ipv4, ipv6, domain}
use server_naive_rs.Address.Authority.{Parsing, and_some, from_authority}
use server_naive_rs.Router.{OutboundType, direct, reject, proxy}
use server_naive_rs.Auth.{Decoding, AuthResult, credential, refused, parse_basic_auth}

-- The parts of a request that the handler reads; `authority` and `auth_header` where they are text.
pub record Request : Type 0 where
  pub is_connect : Bool
  pub has_padding : Bool
  pub authority : Option (List ℕ)
  pub auth_header : Option (List ℕ)

-- An answer by status alone, an error without an answer, or the answer 200 and the tunnel, for a
-- target, a user and a route.
pub data Decision (D : Type 0) : Type 0 where
  answered : ℕ → Decision D
  dropped : Decision D
  opened : Address → ℕ → OutboundType D → Decision D

module _ {D : Type 0} (p : Parsing) (d : Decoding) (authenticate : List ℕ → Option ℕ)
    (route : Address → OutboundType D) where
  unfoldable pub routed : Address → ℕ → OutboundType D → Decision D
  routed target user reject = answered 403
  routed target user (direct resolved dialer) = opened target user (direct resolved dialer)
  routed target user (proxy handler) = opened target user (proxy handler)

  unfoldable pub authenticated : Address → Option ℕ → Decision D
  unfolding routed
  authenticated target none = answered 407
  authenticated target (some user) = routed target user (route target)

  unfoldable pub parsed : Address → AuthResult → Decision D
  unfolding authenticated
  parsed target (refused e) = answered 407
  parsed target (credential text) = authenticated target (authenticate text)

  unfoldable pub authorized : Option (List ℕ) → Address → Decision D
  unfolding parsed parse_basic_auth
  authorized none target = answered 407
  authorized (some text) target = parsed target (parse_basic_auth d text)

  unfoldable pub addressed : Option (List ℕ) → Option Address → Decision D
  unfolding authorized
  addressed auth_header none = dropped
  addressed auth_header (some target) = authorized auth_header target

  unfoldable pub process_request : Request → Decision D
  unfolding addressed from_authority and_some
  process_request req =
      if not req.is_connect
      then answered 405
      else if not req.has_padding
      then answered 400
      else addressed req.auth_header (and_some req.authority (from_authority p))

  -- What holds where a tunnel is opened.
  pub record IsAdmitted (req : Request) (target : Address) (user : ℕ) (outbound : OutboundType D)
      : Type 0 where
    pub connects : req.is_connect ≡ true
    pub padded : req.has_padding ≡ true
    pub targets : and_some req.authority (from_authority p) ≡ some target
    pub authentic :
        (text password : List ℕ) × (req.auth_header ≡ some text)
        × (parse_basic_auth d text ≡ credential password)
        × (authenticate password ≡ some user)
    pub allowed : (outbound ≡ route target) × (outbound ≢ reject)

  routed-allowed :
      (t : Address) (u : ℕ) (o : OutboundType D) (target : Address) (user : ℕ)
      (outbound : OutboundType D)
      → routed t u o ≡ opened target user outbound
      → (t ≡ target) × (u ≡ user) × (outbound ≡ o) × (outbound ≢ reject)
  unfolding routed
  routed-allowed t u reject target user outbound e = cc
  routed-allowed t u (direct resolved dialer) target user outbound e = (cc, cc, cc, λ r. cc)
  routed-allowed t u (proxy handler) target user outbound e = (cc, cc, cc, λ r. cc)

  -- A tunnel is opened only for a CONNECT request with the padding header, to the target that its
  -- authority names, for the user that its credentials authenticate, on the route of that target,
  -- which is not a rejection.
  pub process_request-IsAdmitted :
      (req : Request) (target : Address) (user : ℕ) (outbound : OutboundType D)
      → process_request req ≡ opened target user outbound
      → IsAdmitted req target user outbound
  unfolding process_request addressed authorized parsed authenticated
  process_request-IsAdmitted req target user outbound e =
      go req.is_connect req.has_padding req.auth_header (and_some req.authority (from_authority p))
        refl refl refl refl e
    where
      go :
          (c h : Bool) (a : Option (List ℕ)) (t : Option Address)
          → req.is_connect ≡ c
          → req.has_padding ≡ h
          → req.auth_header ≡ a
          → and_some req.authority (from_authority p) ≡ t
          → (if not c then answered 405 else if not h then answered 400 else addressed a t)
            ≡ opened target user outbound
          → IsAdmitted req target user outbound
      go false h a t ec eh ea et q = cc
      go true false a t ec eh ea et q = cc
      go true true a none ec eh ea et q = cc
      go true true none (some t) ec eh ea et q = cc
      go true true (some text) (some t) ec eh ea et q = admit (parse_basic_auth d text) refl q
        where
          admit :
              (r : AuthResult)
              → parse_basic_auth d text ≡ r
              → parsed t r ≡ opened target user outbound
              → IsAdmitted req target user outbound
          admit (refused x) f q' = cc
          admit (credential password) f q' = enter (authenticate password) refl q'
            where
              enter :
                  (o : Option ℕ)
                  → authenticate password ≡ o
                  → authenticated t o ≡ opened target user outbound
                  → IsAdmitted req target user outbound
              enter none g q'' = cc
              enter (some u) g q'' =
                  let (same_target, same_user, same_route, allowed) =
                    routed-allowed t u (route t) target user outbound q'' in
                  record {
                    connects = ec;
                    padded = eh;
                    targets = et ∙ ap some same_target;
                    authentic = (text, password, ea, f, g ∙ ap some same_user);
                    allowed = (same_route ∙ ap route same_target, allowed);
                  }
