-- ===== src/Auth/Tests.antt =====
-- A header that is parsed.
use server_naive_rs.Common.{ℕ, ◌≡◌, refl, true, List, [], ◌∷◌, ◌++◌, some}
use server_naive_rs.Common.Assoc.{has}
use server_naive_rs.Auth.{Decoding, credential, basic, parse_basic_auth, parse_basic_auth_password}

-- A decoding that leaves the text as it is.
abbrev plain : Decoding
plain = record { trim = λ t. t; decode = λ t. some t; is_utf8 = λ t. true }

abbrev pair : List ℕ
pair = b'u' ∷ b':' ∷ b'p' ∷ b':' ∷ b'q' ∷ []

parsed : parse_basic_auth plain (basic ++ pair) ≡ credential (b'p' ∷ b':' ∷ b'q' ∷ [])
unfolding parse_basic_auth
parsed = refl

parse_basic_auth_password_example :
    parse_basic_auth plain (basic ++ pair) ≡ credential (b'p' ∷ b':' ∷ b'q' ∷ [])
unfolding has
parse_basic_auth_password_example =
    parse_basic_auth_password plain pair (b'u' ∷ []) (b'p' ∷ b':' ∷ b'q' ∷ []) refl refl refl
