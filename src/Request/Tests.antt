-- ===== src/Request/Tests.antt =====
-- A request that is admitted.
use server_naive_rs.Common.{ℕ, ◌≡◌, refl, true, false, List, [], ◌∷◌, ◌++◌, Option, none, some}
use server_naive_rs.Address.{Address, domain}
use server_naive_rs.Address.Authority.{Parsing}
use server_naive_rs.Router.{OutboundType, direct}
use server_naive_rs.Auth.{Decoding, basic}
use server_naive_rs.Request.{Request, opened, answered, process_request}

-- A parser of ports of one digit, and of no addresses.
abbrev digit : List ℕ → Option ℕ
digit [] = none
digit (c ∷ rest) = some c

abbrev parsing : Parsing
parsing = record { trim = λ t. t; parse_u16 = digit; parse_v4 = λ t. none; parse_v6 = λ t. none }

abbrev decoding : Decoding
decoding = record { trim = λ t. t; decode = λ t. some t; is_utf8 = λ t. true }

abbrev everybody : List ℕ → Option ℕ
everybody password = some 7

abbrev everywhere : Address → OutboundType ℕ
everywhere target = direct none none

abbrev asked : Request
asked = record {
  is_connect = true;
  has_padding = true;
  authority = some (b'a' ∷ b':' ∷ b'9' ∷ []);
  auth_header = some (basic ++ (b'u' ∷ b':' ∷ b'p' ∷ []));
}

admitted :
    process_request parsing decoding everybody everywhere asked
    ≡ opened (domain (b'a' ∷ []) b'9') 7 (direct none none)
unfolding process_request
admitted = refl

unpadded :
    process_request parsing decoding everybody everywhere (record asked { has_padding = false })
    ≡ answered 400
unfolding process_request
unpadded = refl
