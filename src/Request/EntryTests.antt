-- ===== src/Request/EntryTests.antt =====
-- Requests at the two entry points.
use server_naive_rs.Common.{ℕ, ◌≡◌, refl, true, false, List, [], ◌∷◌, ◌++◌, Option, none, some}
use server_naive_rs.Address.{Address, domain}
use server_naive_rs.Address.Authority.{Parsing, from_authority, and_some}
use server_naive_rs.Router.{OutboundType, direct, reject}
use server_naive_rs.Auth.{Decoding, basic, parse_basic_auth}
use server_naive_rs.Request.{process_request}
use server_naive_rs.Request.Judged.{Judged, process_request-Judged}
use server_naive_rs.Request.Answers.{
  find, same_bytes, ended, tunnels, connect, padding, proxy_authorization,
}
use server_naive_rs.Request.H2.{
  response, Pingora, RequestHeader, h2_entry, duplex_buf, h2_result, panicked,
}
use server_naive_rs.Request.H3.{
  headers, body, method_name, authority_name, status_name, h3_entry, or_empty,
}
use server_naive_rs.Request.Entries.{Alike, entries_agree}

-- A parser of ports of one digit, and of no addresses.
abbrev digit : List ℕ → Option ℕ
digit [] = none
digit (c ∷ rest) = some c

abbrev parsing : Parsing
parsing = record { trim = λ t. t; parse_u16 = digit; parse_v4 = λ t. none; parse_v6 = λ t. none }

abbrev decoding : Decoding
decoding = record { trim = λ t. t; decode = λ t. some t; is_utf8 = λ t. true }

abbrev pingora : Pingora
pingora = record {
  is_text = λ t. true;
  builds = λ status. true;
  appends = λ value. true;
  writes = true;
}

abbrev everybody : List ℕ → Option ℕ
everybody password = some 7

abbrev everywhere : Address → OutboundType ℕ
everywhere target = direct none none

abbrev nowhere : Address → OutboundType ℕ
nowhere target = reject

-- "a:9".
abbrev authority : List ℕ
authority = b'a' ∷ b':' ∷ b'9' ∷ []

abbrev authorization : List ℕ
authorization = basic ++ (b'u' ∷ b':' ∷ b'p' ∷ [])

abbrev h2_asked : RequestHeader
h2_asked = record {
  method = connect;
  fields = (padding, b'x' ∷ []) ∷ (proxy_authorization, authorization) ∷ [];
  uri_authority = some authority;
}

abbrev h3_asked : List (List ℕ × List ℕ)
h3_asked =
    (method_name, connect)
    ∷ (authority_name, authority)
    ∷ (padding, b'y' ∷ [])
    ∷ (proxy_authorization, authorization)
    ∷ []

abbrev answer : List ℕ
answer = b'~' ∷ []

h2_opens : h2_entry pingora parsing decoding everybody everywhere answer h2_asked ≡ (
  response 200 (some answer) false ∷ [],
  tunnels (domain (b'a' ∷ []) b'9') 7 (direct none none),
)
unfolding h2_entry from_authority parse_basic_auth
h2_opens = refl

h3_opens : h3_entry parsing decoding everybody everywhere true answer h3_asked ≡ (
  headers ((status_name, b'2' ∷ b'0' ∷ b'0' ∷ []) ∷ (padding, answer) ∷ []) ∷ [],
  tunnels (domain (b'a' ∷ []) b'9') 7 (direct none none),
)
unfolding h3_entry from_authority parse_basic_auth
h3_opens = refl

h3_rejects :
    h3_entry parsing decoding everybody nowhere true answer h3_asked
    ≡ (headers ((status_name, b'4' ∷ b'0' ∷ b'3' ∷ []) ∷ []) ∷ body [] true ∷ [], ended true)
unfolding h3_entry from_authority parse_basic_auth
h3_rejects = refl

h2_results :
    (duplex_buf 32768 ≡ 65536)
    × (h2_result {D = ℕ} (ended true) panicked ≡ true)
    × (h2_result {D = ℕ} (tunnels (domain [] 9) 7 (direct none none)) panicked ≡ false)
unfolding duplex_buf h2_result
h2_results = (refl, refl, refl)

process_request-Judged_example :
    Judged parsing decoding everybody everywhere
      (record {
        is_connect = true;
        has_padding = true;
        authority = some authority;
        auth_header = none;
      })
      (process_request parsing decoding everybody everywhere (record {
        is_connect = true;
        has_padding = true;
        authority = some authority;
        auth_header = none;
      }))
process_request-Judged_example =
    process_request-Judged parsing decoding everybody everywhere (record {
      is_connect = true;
      has_padding = true;
      authority = some authority;
      auth_header = none;
    })

entries_agree_example :
    Alike
      (h2_entry pingora parsing decoding everybody everywhere answer h2_asked)
      (h3_entry parsing decoding everybody everywhere true answer h3_asked)
unfolding find same_bytes or_empty and_some
entries_agree_example =
    entries_agree pingora parsing decoding everybody everywhere answer h2_asked h3_asked
      (record { builds = λ status. refl; appends = λ value. refl; writes = refl }) refl
