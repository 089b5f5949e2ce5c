-- ===== src/Address/Tests.antt =====
-- Texts that are read and printed.
use server_naive_rs.Common.{
  ℕ, zero, suc, ◌+◌, ◌-◌, ◌*◌, ◌/◌, ◌%◌, ◌≡◌, ◌↔◌, refl, Bool, true, false, ◌&&◌, ◌==◌, leb, ltb,
  List, [], ◌∷◌, ◌++◌, Option, none, some, if◌then◌else◌,
}
use server_naive_rs.Common.Assoc.{has}
use server_naive_rs.IpFilter.{Ipv4Addr}
use server_naive_rs.Address.{ipv4, domain, Printing, display}
use server_naive_rs.Address.Authority.{Parsing, from_authority}
use server_naive_rs.Address.RoundTrip.{Names, from_authority-Names, from_authority-display}

-- Decimal numbers of at most five digits.
abbrev decimal : ℕ → ℕ → List ℕ
decimal zero n = []
decimal (suc fuel) n =
    let rest = decimal fuel (n / 10) in
    if ltb n 10 then (n + 48) ∷ [] else rest ++ ((n % 10 + 48) ∷ [])

abbrev value : ℕ → List ℕ → Option ℕ
value acc [] = if ltb acc 65536 then some acc else none
value acc (b ∷ s) =
    let rest = value (acc * 10 + (b - 48)) s in if leb 48 b && leb b 57 then rest else none

abbrev parse_u16 : List ℕ → Option ℕ
parse_u16 [] = none
parse_u16 (b ∷ s) = value 0 (b ∷ s)

abbrev loopback : Ipv4Addr
loopback = record { a = 127; b = 0; c = 0; d = 1 }

-- "127.0.0.1".
abbrev loopback_text : List ℕ
loopback_text = b'1' ∷ b'2' ∷ b'7' ∷ b'.' ∷ b'0' ∷ b'.' ∷ b'0' ∷ b'.' ∷ b'1' ∷ []

abbrev same_text : List ℕ → List ℕ → Bool
same_text [] [] = true
same_text [] (c ∷ t) = false
same_text (b ∷ s) [] = false
same_text (b ∷ s) (c ∷ t) = b == c && same_text s t

abbrev parsing : Parsing
parsing = record {
  trim = λ s. s;
  parse_u16 = parse_u16;
  parse_v4 = λ s. if same_text s loopback_text then some loopback else none;
  parse_v6 = λ s. none;
}

abbrev printing : Printing
printing = record { show_v4 = λ ip. loopback_text; show_v6 = λ ip. []; show_u16 = decimal 5 }

-- "ab".
abbrev name : List ℕ
name = b'a' ∷ b'b' ∷ []

reads :
    (from_authority parsing (name ++ (b':' ∷ b'4' ∷ b'4' ∷ b'3' ∷ [])) ≡ some (domain name 443))
    × (from_authority parsing (loopback_text ++ (b':' ∷ b'8' ∷ b'0' ∷ []))
        ≡ some (ipv4 loopback 80))
    × (from_authority parsing (name ++ (b':' ∷ b'9' ∷ b'9' ∷ b'9' ∷ b'9' ∷ b'9' ∷ [])) ≡ none)
    × (from_authority parsing name ≡ none)
unfolding from_authority
reads = (refl, refl, refl, refl)

from_authority-Names_example :
    (from_authority parsing (name ++ (b':' ∷ b'4' ∷ b'4' ∷ b'3' ∷ [])) ≡ some (domain name 443))
    ↔ Names parsing (name ++ (b':' ∷ b'4' ∷ b'4' ∷ b'3' ∷ [])) (domain name 443)
from_authority-Names_example =
    from_authority-Names parsing (name ++ (b':' ∷ b'4' ∷ b'4' ∷ b'3' ∷ [])) (domain name 443)

from_authority-display_example :
    from_authority parsing (display printing (ipv4 loopback 8443)) ≡ some (ipv4 loopback 8443)
unfolding has
from_authority-display_example =
    from_authority-display parsing printing (ipv4 loopback 8443) (refl, refl, refl, refl)
