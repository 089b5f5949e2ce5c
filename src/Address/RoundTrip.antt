-- ===== src/Address/RoundTrip.antt =====
-- What `Address::from_authority` of core/address.rs accepts, and that it reads back what `Display`
-- prints.
use server_naive_rs.Common.{
  ℕ, ◌≡◌, ◌↔◌, refl, sym, ap, subst, ◌∙◌, arith, Bool, false, ◌==◌, ==_iff, List, [], ◌∷◌, ◌++◌,
  Option, none, some, Option-cases, Bool-cases, inl, inr,
}
use server_naive_rs.Common.Assoc.{has}
use server_naive_rs.Address.{Address, ipv4, ipv6, domain, Printing, display}
use server_naive_rs.Address.Authority.{
  Parsing, and_some, split_first, split_last, strip_colon, bracketed, plain_authority,
  from_authority,
}
use server_naive_rs.Address.Splits.{
  split_first-append, split_last-append, split_first_sound, split_last_sound,
}

abbrev bracket_first : List ℕ → Bool
bracket_first [] = false
bracket_first (b ∷ s) = b == b'['

-- How a text names an address: what stands in it, and what std's parsers make of its parts.
abbrev pub Names : Parsing → List ℕ → Address → Type 0
Names p s (ipv4 ip n) =
    (host port : List ℕ) × (s ≡ host ++ (b':' ∷ port))
    × (has b':' port ≡ false)
    × (bracket_first s ≡ false)
    × (p.parse_u16 port ≡ some n)
    × (p.parse_v4 host ≡ some ip)
Names p s (ipv6 ip n) =
    (host port : List ℕ) × (s ≡ b'[' ∷ (host ++ (b']' ∷ b':' ∷ port)))
    × (has b']' host ≡ false)
    × (p.parse_u16 (p.trim port) ≡ some n)
    × (p.parse_v6 host ≡ some ip)
Names p s (domain name n) =
    (port : List ℕ) × (s ≡ name ++ (b':' ∷ port))
    × (has b':' port ≡ false)
    × (bracket_first s ≡ false)
    × (p.parse_u16 port ≡ some n)
    × (p.parse_v4 name ≡ none)

and_some_inv :
    {A B : Type 0} (o : Option A) (k : A → Option B) (b : B)
    → and_some o k ≡ some b
    → (a : A) × (o ≡ some a) × (k a ≡ some b)
unfolding and_some
and_some_inv none k b e = cc
and_some_inv (some a) k b e = (a, refl, e)

some_inj : {A : Type 0} {a b : A} → some a ≡ some b → a ≡ b
some_inj e = cc

strip_colon_sound : (s t : List ℕ) → strip_colon s ≡ some t → s ≡ b':' ∷ t
unfolding strip_colon
strip_colon_sound [] t e = cc
strip_colon_sound (b ∷ s) t e = ground (arith, ==_iff b b':', e)

module _ (p : Parsing) where
  from_authority_plain :
      (s : List ℕ) → bracket_first s ≡ false → from_authority p s ≡ plain_authority p s
  unfolding from_authority
  from_authority_plain [] e = refl
  from_authority_plain (b ∷ s) e = rw e refl

  from_authority_complete :
      (s : List ℕ) (addr : Address) → Names p s addr → from_authority p s ≡ some addr
  unfolding bracketed plain_authority strip_colon from_authority and_some
  from_authority_complete s (ipv4 ip n) (host, port, cut, free, first, port_ok, host_ok) =
      from_authority_plain s first
      ∙ rw (cut, split_last-append b':' host port free, port_ok, host_ok) refl
  from_authority_complete s (ipv6 ip n) (host, port, cut, free, port_ok, host_ok) =
      rw (cut, from_authority, split_first-append b']' host (b':' ∷ port) free, port_ok, host_ok)
        refl
  from_authority_complete s (domain name n) (port, cut, free, first, port_ok, host_ok) =
      from_authority_plain s first
      ∙ rw (cut, split_last-append b':' name port free, port_ok, host_ok) refl

  bracketed_sound :
      (s : List ℕ) (addr : Address) → bracketed p s ≡ some addr → Names p (b'[' ∷ s) addr
  unfolding bracketed
  bracketed_sound s addr e =
      let ((host, rest), cut, e1) = and_some_inv {B = Address} (split_first b']' s) _ addr e in
      let (port, colon, e2) = and_some_inv {B = Address} (strip_colon rest) _ addr e1 in
      let (n, port_ok, e3) = and_some_inv {B = Address} (p.parse_u16 (p.trim port)) _ addr e2 in
      let (ip, host_ok, e4) = and_some_inv {B = Address} (p.parse_v6 host) _ addr e3 in
      let (whole, free) = split_first_sound b']' s host rest cut in
      subst (Names p (b'[' ∷ s)) {x = ipv6 ip n} (some_inj e4) (
        host,
        port,
        ap (λ x. b'[' ∷ x)
            (whole ∙ ap (λ x. host ++ (b']' ∷ x)) (strip_colon_sound rest port colon)),
        free,
        port_ok,
        host_ok,
      )

  plain_authority_sound :
      (s : List ℕ) (addr : Address)
      → bracket_first s ≡ false
      → plain_authority p s ≡ some addr
      → Names p s addr
  unfolding plain_authority
  plain_authority_sound s addr first e =
      let ((host, port), cut, e1) = and_some_inv {B = Address} (split_last b':' s) _ addr e in
      let (n, port_ok, e2) = and_some_inv {B = Address} (p.parse_u16 port) _ addr e1 in
      let (whole, free) = split_last_sound b':' s host port cut in
      elim (Option-cases (p.parse_v4 host)) [
        | inl none_v4 ↦
            subst (Names p s) {x = domain host n} (some_inj (rw none_v4 at e2))
              (port, whole, free, first, port_ok, none_v4)
        | inr (ip, host_ok) ↦
            subst (Names p s) {x = ipv4 ip n} (some_inj (rw host_ok at e2))
              (host, port, whole, free, first, port_ok, host_ok)
      ]

  from_authority_sound :
      (s : List ℕ) (addr : Address) → from_authority p s ≡ some addr → Names p s addr
  unfolding from_authority
  from_authority_sound [] addr e = plain_authority_sound [] addr refl e
  from_authority_sound (b ∷ s) addr e = elim (Bool-cases (b == b'[')) [
    | inl here ↦
        subst (λ x. Names p (x ∷ s) addr) (sym ((==_iff b b'[').0 here))
          (bracketed_sound s addr (rw here at e))
    | inr other ↦ plain_authority_sound (b ∷ s) addr other (rw other at e)
  ]

  -- `from_authority` accepts a text for an address exactly if the text is a host, a colon and a port:
  -- an IPv6 host in brackets up to the first `]`, any other host up to the last colon and without
  -- `[` in front, where std's parsers read the port, and the host as the address or, for a domain, not
  -- as an IPv4 address.
  pub from_authority-Names :
      (s : List ℕ) (addr : Address) → (from_authority p s ≡ some addr) ↔ Names p s addr
  from_authority-Names s addr = (from_authority_sound s addr, from_authority_complete s addr)

  -- What std's parsers make of what std prints of this address: its port and IP address come back, the
  -- port has no colon and no space around it, an IPv4 address no `[` in front and an IPv6 address no
  -- `]`. Of a domain the name itself: it is no IPv4 address and has no `[` in front.
  abbrev pub PrintsBack : Printing → Address → Type 0
  PrintsBack out (ipv4 ip n) =
      (p.parse_v4 (out.show_v4 ip) ≡ some ip)
      × (p.parse_u16 (out.show_u16 n) ≡ some n)
      × (has b':' (out.show_u16 n) ≡ false)
      × (bracket_first (out.show_v4 ip) ≡ false)
  PrintsBack out (ipv6 ip n) =
      (p.parse_v6 (out.show_v6 ip) ≡ some ip)
      × (p.parse_u16 (p.trim (out.show_u16 n)) ≡ some n)
      × (has b']' (out.show_v6 ip) ≡ false)
  PrintsBack out (domain name n) =
      (p.parse_v4 name ≡ none)
      × (p.parse_u16 (out.show_u16 n) ≡ some n)
      × (has b':' (out.show_u16 n) ≡ false)
      × (bracket_first name ≡ false)

  bracket_first-append :
      (h t : List ℕ) → bracket_first h ≡ false → bracket_first (h ++ (b':' ∷ t)) ≡ false
  bracket_first-append [] t e = refl
  bracket_first-append (b ∷ h) t e = e

  -- `from_authority` reads back the address that `Display` prints, where std's parsers read back what
  -- std prints of its parts.
  pub from_authority-display :
      (out : Printing) (addr : Address)
      → PrintsBack out addr
      → from_authority p (display out addr) ≡ some addr
  unfolding display
  from_authority-display out (ipv4 ip n) (host_ok, port_ok, free, first) =
      from_authority_complete _ (ipv4 ip n) (
        out.show_v4 ip,
        out.show_u16 n,
        refl,
        free,
        bracket_first-append (out.show_v4 ip) (out.show_u16 n) first,
        port_ok,
        host_ok,
      )
  from_authority-display out (ipv6 ip n) (host_ok, port_ok, free) =
      from_authority_complete _ (ipv6 ip n)
        (out.show_v6 ip, out.show_u16 n, refl, free, port_ok, host_ok)
  from_authority-display out (domain name n) (host_ok, port_ok, free, first) =
      from_authority_complete _ (domain name n) (
        out.show_u16 n,
        refl,
        free,
        bracket_first-append name (out.show_u16 n) first,
        port_ok,
        host_ok,
      )
