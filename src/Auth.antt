-- ===== src/Auth.antt =====
-- `parse_basic_auth` of handler.rs. base64 and std are parameters.
mod Tests
use server_naive_rs.Common.{
  ℕ, ◌≡◌, refl, sym, ap, ◌∙◌, arith, Bool, true, false, ◌==◌, ==_refl, List, [], ◌∷◌, ◌++◌, Option,
  none, some, if◌then◌else◌,
}
use server_naive_rs.Common.Assoc.{has}

-- `trim` is `str::trim`, `decode` base64's standard engine, `is_utf8` the test of `from_utf8`.
pub record Decoding : Type 0 where
  pub trim : List ℕ → List ℕ
  pub decode : List ℕ → Option (List ℕ)
  pub is_utf8 : List ℕ → Bool

pub data AuthError : Type 0 where
  no_basic_prefix base64_failed utf8_failed : AuthError

pub data AuthResult : Type 0 where
  credential : List ℕ → AuthResult
  refused : AuthError → AuthResult

abbrev pub basic : List ℕ
basic = b'B' ∷ b'a' ∷ b's' ∷ b'i' ∷ b'c' ∷ b' ' ∷ []

-- `str::strip_prefix`.
unfoldable pub strip_prefix : List ℕ → List ℕ → Option (List ℕ)
strip_prefix [] bytes = some bytes
strip_prefix (c ∷ prefix) [] = none
strip_prefix (c ∷ prefix) (b ∷ bytes) =
    let rest = strip_prefix prefix bytes in if c == b then rest else none

-- What stands behind the first colon.
unfoldable pub after_colon : List ℕ → Option (List ℕ)
after_colon [] = none
after_colon (b ∷ bytes) = let rest = after_colon bytes in if b == b':' then some bytes else rest

unfoldable pub password_of : List ℕ → List ℕ
unfolding after_colon
password_of text = elim (after_colon text) [ some password ↦ password | none ↦ text ]

unfoldable pub decoded_auth : Decoding → Option (List ℕ) → AuthResult
unfolding password_of
decoded_auth d none = refused base64_failed
decoded_auth d (some bytes) =
    if d.is_utf8 bytes then credential (password_of bytes) else refused utf8_failed

unfoldable pub parse_basic_auth : Decoding → List ℕ → AuthResult
unfolding strip_prefix decoded_auth
parse_basic_auth d auth_header = elim (strip_prefix basic auth_header) [
  | none ↦ refused no_basic_prefix
  | some encoded ↦ decoded_auth d (d.decode (d.trim encoded))
]

after_colon-first :
    (user password : List ℕ)
    → has b':' user ≡ false
    → after_colon (user ++ b':' ∷ password) ≡ some password
unfolding after_colon has
after_colon-first [] password h = refl
after_colon-first (b ∷ user) password h = ground (arith, h, after_colon-first user password)

-- Of a header `Basic ` with a text that decodes to `user:password` in UTF-8, with no colon in the
-- user's name, `parse_basic_auth` gives the password, whatever colons are in that.
pub parse_basic_auth_password :
    (d : Decoding) (encoded user password : List ℕ)
    → has b':' user ≡ false
    → d.decode (d.trim encoded) ≡ some (user ++ b':' ∷ password)
    → d.is_utf8 (user ++ b':' ∷ password) ≡ true
    → parse_basic_auth d (basic ++ encoded) ≡ credential password
unfolding parse_basic_auth password_of
parse_basic_auth_password d encoded user password h e u =
    rw (e, u, password_of, after_colon-first user password h) refl
