-- ===== src/Request/Answers.antt =====
-- The early returns of the two entry points of handler.rs, with what each has written to the client
-- by then.
use server_naive_rs.Common.{
  ℕ, ◌+◌, ◌/◌, ◌%◌, ◌≡◌, refl, Bool, true, false, ◌==◌, ◌&&◌, List, [], ◌∷◌, Option, none, some,
  if◌then◌else◌,
}
use server_naive_rs.Address.{Address}
use server_naive_rs.Address.Authority.{Parsing, and_some, from_authority}
use server_naive_rs.Router.{OutboundType, direct, reject, proxy}
use server_naive_rs.Auth.{Decoding, AuthResult, credential, refused, parse_basic_auth}
use server_naive_rs.Request.{
  Request, Decision, answered, dropped, opened, routed, authenticated, parsed, authorized,
  addressed, process_request,
}

unfoldable pub same_bytes : List ℕ → List ℕ → Bool
same_bytes [] [] = true
same_bytes [] (c ∷ t) = false
same_bytes (b ∷ s) [] = false
same_bytes (b ∷ s) (c ∷ t) = b == c && same_bytes s t

-- The first header of the name.
unfoldable pub find : List (List ℕ × List ℕ) → List ℕ → Option (List ℕ)
unfolding same_bytes
find [] name = none
find ((key, value) ∷ headers) name =
    let rest = find headers name in if same_bytes key name then some value else rest

abbrev pub is_some : {A : Type 0} → Option A → Bool
is_some none = false
is_some (some a) = true

abbrev pub when : {A : Type 0} → (A → Bool) → A → Option A
when test a = if test a then some a else none

-- Go on, or return with `Ok` (`true`) or `Err`, having written these frames.
pub data Flow (F A : Type 0) : Type 0 where
  on : A → Flow F A
  returned : List F → Bool → Flow F A

module _ {F : Type 0} where
  unfoldable pub bind : {A B : Type 0} → Flow F A → (A → Flow F B) → Flow F B
  bind (on a) k = k a
  bind (returned frames ok) k = returned frames ok

  -- A check, and a value, without which the frames are written and the result is `Err`.
  unfoldable pub require : Bool → List F → Flow F Unit
  require true frames = on tt
  require false frames = returned frames false

  unfoldable pub demand : {A : Type 0} → Option A → List F → Flow F A
  demand none frames = returned frames false
  demand (some a) frames = on a

  -- `matches!(outbound_type, Reject)`, which is answered and no error.
  unfoldable pub pass_route :
      {D : Type 0} → Address → ℕ → OutboundType D → List F → Flow F (Address × ℕ × OutboundType D)
  pass_route target user reject frames = returned frames true
  pass_route target user (direct resolved dialer) frames = on (target, user, direct resolved dialer)
  pass_route target user (proxy handler) frames = on (target, user, proxy handler)

-- The return of a handler, or the tunnel to the target, for the user, on the route.
pub data Outcome (D : Type 0) : Type 0 where
  ended : Bool → Outcome D
  tunnels : Address → ℕ → OutboundType D → Outcome D

-- The three digits of a status.
abbrev pub digits : ℕ → List ℕ
digits n = (n / 100 + 48) ∷ (n / 10 % 10 + 48) ∷ (n % 10 + 48) ∷ []

-- "CONNECT", "padding", "proxy-authorization".
abbrev pub connect : List ℕ
connect = b'C' ∷ b'O' ∷ b'N' ∷ b'N' ∷ b'E' ∷ b'C' ∷ b'T' ∷ []

abbrev pub padding : List ℕ
padding = b'p' ∷ b'a' ∷ b'd' ∷ b'd' ∷ b'i' ∷ b'n' ∷ b'g' ∷ []

abbrev pub proxy_authorization : List ℕ
proxy_authorization =
    b'p' ∷ b'r' ∷ b'o' ∷ b'x' ∷ b'y' ∷ b'-' ∷ b'a' ∷ b'u' ∷ b't' ∷ b'h' ∷ b'o' ∷ b'r' ∷ b'i' ∷ b'z'
    ∷ b'a' ∷ b't' ∷ b'i' ∷ b'o' ∷ b'n' ∷ []

unfoldable pub credential_of : AuthResult → Option (List ℕ)
credential_of (credential text) = some text
credential_of (refused e) = none

module _ {F D : Type 0} (status : ℕ → List F) where
  -- A decision carried out: the frames of its status, `Err` but for a rejection, and no frame where
  -- the request is dropped.
  abbrev pub carried : Decision D → Flow F (Address × ℕ × OutboundType D)
  carried (answered code) = returned (status code) (code == 403)
  carried dropped = returned [] false
  carried (opened target user outbound) = on (target, user, outbound)

  module _ (p : Parsing) (d : Decoding) (authenticate : List ℕ → Option ℕ)
      (route : Address → OutboundType D) where
    -- The checks in the order of both handlers.
    unfoldable pub checks :
        Bool → Bool → Option (List ℕ) → Option (List ℕ) → Flow F (Address × ℕ × OutboundType D)
    unfolding bind require demand pass_route credential_of
    checks is_connect has_padding authority auth_header =
        bind (require is_connect (status 405)) (λ _. bind (require has_padding (status 400)) (λ _.
          bind (demand authority []) (λ text. bind (demand (from_authority p text) []) (λ target.
            bind (demand auth_header (status 407)) (λ header.
              bind (demand (credential_of (parse_basic_auth d header)) (status 407)) (λ word.
                bind (demand (authenticate word) (status 407))
                  (λ user_id. pass_route target user_id (route target) (status 403))))))))

    ends :
        (target : Address) (user : ℕ) (o : OutboundType D)
        → pass_route target user o (status 403)
          ≡ carried (routed p d authenticate route target user o)
    unfolding pass_route routed
    ends target user reject = refl
    ends target user (direct resolved dialer) = refl
    ends target user (proxy handler) = refl

    known :
        (target : Address) (o : Option ℕ)
        → bind (demand o (status 407)) (λ user. pass_route target user (route target) (status 403))
          ≡ carried (authenticated p d authenticate route target o)
    unfolding authenticated bind demand
    known target none = refl
    known target (some user) = ends target user (route target)

    signed :
        (target : Address) (r : AuthResult)
        → bind (demand (credential_of r) (status 407)) (λ word.
          bind
            (demand (authenticate word) (status 407))
            (λ user. pass_route target user (route target) (status 403)))
          ≡ carried (parsed p d authenticate route target r)
    unfolding parsed bind demand credential_of
    signed target (refused e) = refl
    signed target (credential word) = known target (authenticate word)

    headed :
        (target : Address) (a : Option (List ℕ))
        → bind (demand a (status 407)) (λ header.
          bind (demand (credential_of (parse_basic_auth d header)) (status 407)) (λ word.
            bind
              (demand (authenticate word) (status 407))
              (λ user. pass_route target user (route target) (status 403))))
          ≡ carried (authorized p d authenticate route a target)
    unfolding authorized bind demand
    headed target none = refl
    headed target (some text) = signed target (parse_basic_auth d text)

    named :
        (o : Option Address) (a : Option (List ℕ))
        → bind (demand o []) (λ target. bind (demand a (status 407)) (λ header.
          bind (demand (credential_of (parse_basic_auth d header)) (status 407)) (λ word.
            bind
              (demand (authenticate word) (status 407))
              (λ user. pass_route target user (route target) (status 403)))))
          ≡ carried (addressed p d authenticate route a o)
    unfolding addressed bind demand
    named none a = refl
    named (some target) a = headed target a

    pub checks-process_request :
        (req : Request)
        → checks req.is_connect req.has_padding req.authority req.auth_header
          ≡ carried (process_request p d authenticate route req)
    unfolding checks process_request addressed and_some bind require demand
    checks-process_request req = go req.is_connect req.has_padding req.authority req.auth_header
      where
        go :
            (c h : Bool) (t a : Option (List ℕ))
            → checks c h t a
              ≡ carried (
                  process_request p d authenticate route
                    (record { is_connect = c; has_padding = h; authority = t; auth_header = a }))
        go false h t a = refl
        go true false t a = refl
        go true true none a = refl
        go true true (some text) a = named (from_authority p text) a
