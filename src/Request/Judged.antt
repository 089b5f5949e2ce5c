-- ===== src/Request/Judged.antt =====
-- The decision of handler.rs on a request, described apart from the order of the checks.
use server_naive_rs.Common.{
  ℕ, ◌≡◌, ◌≢◌, refl, sym, ap, ◌∙◌, Bool, true, false, not, List, Option, none, some, if◌then◌else◌,
}
use server_naive_rs.Address.{Address}
use server_naive_rs.Address.Authority.{Parsing, and_some, from_authority}
use server_naive_rs.Router.{OutboundType, direct, reject, proxy}
use server_naive_rs.Auth.{Decoding, AuthResult, credential, refused, parse_basic_auth}
use server_naive_rs.Request.{
  Request, Decision, answered, dropped, opened, routed, authenticated, parsed, authorized,
  addressed, process_request,
}

module _ {D : Type 0} (p : Parsing) (d : Decoding) (authenticate : List ℕ → Option ℕ)
    (route : Address → OutboundType D) where
  -- The credentials of the request, if they can be read.
  abbrev pub password : AuthResult → Option (List ℕ)
  password (credential text) = some text
  password (refused e) = none

  -- The user that the request authenticates as, if any.
  abbrev pub user_of : Option (List ℕ) → Option ℕ
  user_of header =
      and_some header (λ text. and_some (password (parse_basic_auth d text)) authenticate)

  -- The request names this target and authenticates as this user.
  abbrev pub Asks : Request → Address → ℕ → Type 0
  Asks req target user =
      (req.is_connect ≡ true)
      × (req.has_padding ≡ true)
      × (and_some req.authority (from_authority p) ≡ some target)
      × (user_of req.auth_header ≡ some user)

  -- Why the request is answered by this status.
  pub data Refusal (req : Request) : ℕ → Type 0 where
    not_connect : req.is_connect ≡ false → Refusal req 405
    not_padded : req.is_connect ≡ true → req.has_padding ≡ false → Refusal req 400
    nobody :
        (target : Address)
        → req.is_connect ≡ true
        → req.has_padding ≡ true
        → and_some req.authority (from_authority p) ≡ some target
        → user_of req.auth_header ≡ none
        → Refusal req 407
    forbidden :
        (target : Address) (user : ℕ)
        → Asks req target user
        → route target ≡ reject
        → Refusal req 403

  -- What the request deserves.
  abbrev pub Judged : Request → Decision D → Type 0
  Judged req (answered status) = Refusal req status
  Judged req dropped =
      (req.is_connect ≡ true)
      × (req.has_padding ≡ true)
      × (and_some req.authority (from_authority p) ≡ none)
  Judged req (opened target user outbound) =
      Asks req target user × (outbound ≡ route target) × (outbound ≢ reject)

  routed-Judged :
      (req : Request) (target : Address) (user : ℕ)
      → Asks req target user
      → (o : OutboundType D) → route target ≡ o
      → Judged req (routed p d authenticate route target user o)
  unfolding routed
  routed-Judged req target user asks reject e = forbidden target user asks e
  routed-Judged req target user asks (direct resolved dialer) e = (asks, sym e, λ r. cc)
  routed-Judged req target user asks (proxy handler) e = (asks, sym e, λ r. cc)

  -- The decision on every request is the one it deserves: 405 where it is no CONNECT, else 400 where
  -- it has no padding header, else an error without an answer where it names no target, else 407
  -- where it authenticates nobody, else 403 where its route is a rejection, else the tunnel, to its
  -- target, for its user, on its route.
  pub process_request-Judged :
      (req : Request) → Judged req (process_request p d authenticate route req)
  unfolding process_request addressed authorized parsed authenticated and_some
  process_request-Judged req =
      go req.is_connect req.has_padding req.auth_header (and_some req.authority (from_authority p))
        refl refl refl refl
    where
      go :
          (c h : Bool) (a : Option (List ℕ)) (t : Option Address)
          → req.is_connect ≡ c
          → req.has_padding ≡ h
          → req.auth_header ≡ a
          → and_some req.authority (from_authority p) ≡ t
          → Judged req (
              if not c
              then answered 405
              else if not h
              then answered 400
              else addressed p d authenticate route a t)
      go false h a t ec eh ea et = not_connect ec
      go true false a t ec eh ea et = not_padded ec eh
      go true true a none ec eh ea et = (ec, eh, et)
      go true true none (some t) ec eh ea et = nobody t ec eh et (ap user_of ea)
      go true true (some text) (some t) ec eh ea et = admit (parse_basic_auth d text) refl
        where
          admit :
              (r : AuthResult)
              → parse_basic_auth d text ≡ r
              → Judged req (parsed p d authenticate route t r)
          admit (refused x) f =
              nobody t ec eh et (ap user_of ea ∙ ap (λ r. and_some (password r) authenticate) f)
          admit (credential word) f = enter (authenticate word) refl
            where
              user_is : user_of req.auth_header ≡ authenticate word
              user_is = ap user_of ea ∙ ap (λ r. and_some (password r) authenticate) f

              enter :
                  (o : Option ℕ)
                  → authenticate word ≡ o
                  → Judged req (authenticated p d authenticate route t o)
              enter none g = nobody t ec eh et (user_is ∙ g)
              enter (some user) g =
                  routed-Judged req t user (ec, eh, et, user_is ∙ g) (route t) refl
