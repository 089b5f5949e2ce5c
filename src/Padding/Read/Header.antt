-- ===== src/Padding/Read/Header.antt =====
-- The loop that reads a frame's header.
use server_naive_rs.Common.{
  ℕ, zero, suc, ◌+◌, ◌-◌, ◌*◌, ◌≤◌, ◌<◌, ◌≡◌, refl, sym, ap, ◌∙◌, arith, Option, none, some, List,
  [], ◌∷◌, ◌++◌, ltb, length, All, Bool-cases, inl, inr, append-nil, length-append, All-append,
  All-append_left, ltb→lt, le→ltb, subst,
}
use server_naive_rs.Stream.{
  IsByte, AsyncRead, IsReader, ReadOutcome, IoResult, ok, err, Poll, pending, ready,
}
use server_naive_rs.Padding.Protocol.{Decoder, header, at_body, feed, decode, behind, decode-append}
use server_naive_rs.Padding.Read.{hdr_polled, Flow, returns, goes_on, read_hdr_loop}

-- The decoder behind the bytes `hdr` of a header, which may be all three.
abbrev pub at_hdr : ℕ → List ℕ → Decoder
at_hdr f [] = header f []
at_hdr f (a ∷ []) = header f (a ∷ [])
at_hdr f (a ∷ b ∷ []) = header f (a ∷ b ∷ [])
at_hdr f (a ∷ b ∷ c ∷ rest) = at_body (f + 1) (a * 256 + b) c

behind-hdr :
    (f : ℕ) (hdr xs : List ℕ)
    → length hdr < 3
    → length hdr + length xs ≤ 3
    → (decode (at_hdr f hdr) xs ≡ []) × (behind (at_hdr f hdr) xs ≡ at_hdr f (hdr ++ xs))
unfolding decode behind feed
behind-hdr f hdr [] l h = (refl, ap (at_hdr f) (sym (append-nil hdr)))
behind-hdr f [] (x ∷ []) l h = (refl, refl)
behind-hdr f [] (x ∷ y ∷ []) l h = (refl, refl)
behind-hdr f [] (x ∷ y ∷ z ∷ []) l h = (refl, refl)
behind-hdr f [] (x ∷ y ∷ z ∷ w ∷ xs) l h = absurd (omega arith)
behind-hdr f (a ∷ []) (x ∷ []) l h = (refl, refl)
behind-hdr f (a ∷ []) (x ∷ y ∷ []) l h = (refl, refl)
behind-hdr f (a ∷ []) (x ∷ y ∷ z ∷ xs) l h = absurd (omega arith)
behind-hdr f (a ∷ b ∷ []) (x ∷ []) l h = (refl, refl)
behind-hdr f (a ∷ b ∷ []) (x ∷ y ∷ xs) l h = absurd (omega arith)
behind-hdr f (a ∷ b ∷ c ∷ r) (x ∷ xs) l h = absurd (omega arith)

pub decode-hdr :
    (f : ℕ) (hdr xs wire : List ℕ)
    → length hdr < 3
    → length hdr + length xs ≤ 3
    → decode (at_hdr f hdr) (xs ++ wire) ≡ decode (at_hdr f (hdr ++ xs)) wire
decode-hdr f hdr xs wire l h =
    decode-append (at_hdr f hdr) xs wire
    ∙ rw ((behind-hdr f hdr xs l h).0, (behind-hdr f hdr xs l h).1)

-- What the loop leaves, where `before` is what the decoder makes of the wire: a whole header to
-- go on with, or a part of one and a result that a read into `room` may have.
abbrev pub HeaderGood :
    {T : Type 0} → (T → List ℕ) → ℕ → List ℕ → ℕ → Option (Flow × T × List ℕ) → Type 0
HeaderGood incoming f before room none = ⊥
HeaderGood incoming f before room (some (returns p, t, hdr)) =
    (length hdr ≤ 2)
    × All IsByte hdr
    × ReadOutcome before room p (decode (at_hdr f hdr) (incoming t))
HeaderGood incoming f before room (some (goes_on, t, hdr)) =
    (length hdr ≡ 3) × All IsByte hdr × (decode (at_hdr f hdr) (incoming t) ≡ before)

module _ {T : Type 0} (incoming : T → List ℕ) (f room : ℕ) (hdr : List ℕ) (part : length hdr < 3)
    (bytes : All IsByte hdr) where
  hdr_polled-HeaderGood :
      (again : T → List ℕ → Option (Flow × T × List ℕ)) (wire before : List ℕ)
      → decode (at_hdr f hdr) wire ≡ before
      → All IsByte wire
      → ((t : T) (hdr' : List ℕ)
          → length hdr' ≤ 3
          → length hdr < length hdr'
          → All IsByte hdr'
          → decode (at_hdr f hdr') (incoming t) ≡ before
          → HeaderGood incoming f before room (again t hdr'))
      → (p : Poll (IoResult (List ℕ))) (t : T) → ReadOutcome wire (3 - length hdr) p (incoming t)
      → HeaderGood incoming f before room (hdr_polled again hdr (p, t))
  unfolding hdr_polled
  hdr_polled-HeaderGood again wire before e wb ih pending t o =
      (omega arith, bytes, ap (decode (at_hdr f hdr)) o ∙ e)
  hdr_polled-HeaderGood again wire before e wb ih (ready (err x)) t o = (omega arith, bytes, tt)
  hdr_polled-HeaderGood again wire before e wb ih (ready (ok [])) t o = (
    omega arith,
    bytes,
    (
      sym e ∙ ap (decode (at_hdr f hdr)) o.0,
      omega arith,
      λ _ _. sym e ∙ ap (decode (at_hdr f hdr)) (o.2 refl (omega arith)) ∙ unfold decode in refl,
    ),
  )
  hdr_polled-HeaderGood again wire before e wb ih (ready (ok (b ∷ bs))) t o =
      ih t (hdr ++ b ∷ bs) (omega (arith, length-append hdr (b ∷ bs), o.1))
        (omega (arith, length-append hdr (b ∷ bs)))
        (All-append IsByte hdr (b ∷ bs) bytes
          (All-append_left IsByte (b ∷ bs) (incoming t) (subst (All IsByte) o.0 wb)))
        (sym (decode-hdr f hdr (b ∷ bs) (incoming t) part (omega (arith, o.1)))
          ∙ ap (decode (at_hdr f hdr)) (sym o.0)
          ∙ e)

module _ {T : Type 0} (r : AsyncRead T) (incoming : T → List ℕ) (h : IsReader r incoming)
    (f room : ℕ) where
  pub read_hdr_loop-HeaderGood :
      (fuel : ℕ) (t : T) (hdr : List ℕ) (before : List ℕ)
      → length hdr ≤ 3
      → 3 ≤ fuel + length hdr
      → All IsByte hdr
      → decode (at_hdr f hdr) (incoming t) ≡ before
      → HeaderGood incoming f before room (read_hdr_loop r fuel t hdr)
  unfolding read_hdr_loop
  read_hdr_loop-HeaderGood zero t hdr before l en bytes e =
      rw (le→ltb (length hdr) 3 (omega arith)) (omega arith, bytes, e)
  read_hdr_loop-HeaderGood (suc fuel) t hdr before l en bytes e =
      elim (Bool-cases (ltb (length hdr) 3)) [
        | inr full ↦ rw full (ground arith, bytes, e)
        | inl part ↦ rw part (
            hdr_polled-HeaderGood incoming f room hdr (ltb→lt _ _ part) bytes (read_hdr_loop r fuel)
              (incoming t) before e (h.bytes t)
              (λ u hdr' le' lt' b' e'.
                read_hdr_loop-HeaderGood fuel u hdr' before le' (omega arith) b' e')
              (r.poll_read t (3 - length hdr)).0 (r.poll_read t (3 - length hdr)).1
              (h.reads t (3 - length hdr)))
      ]
