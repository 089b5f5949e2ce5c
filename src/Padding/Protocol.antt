-- ===== src/Padding/Protocol.antt =====
-- The padding protocol on the wire, apart from the code: a decoder that takes one byte at a time.
-- A frame is a 16-bit data size, an 8-bit padding size, the data and the padding; behind the last
-- frame the bytes are the data.
use server_naive_rs.Common.{
  ℕ, suc, ◌+◌, ◌-◌, ◌*◌, ◌≤◌, ◌<◌, ◌≡◌, refl, sym, ap, ◌∙◌, arith, List, [], ◌∷◌, ◌++◌, ltb, leb,
  if◌then◌else◌, length, append_assoc, append-nil,
}
use server_naive_rs.Padding.State.{padding_frames}

-- `header f hdr` waits for the rest of the header of frame `f`; `body f n p` and `skip f n` wait
-- for `n` bytes more of data and of padding, with `f` headers read.
pub data Decoder : Type 0 where
  header : ℕ → List ℕ → Decoder
  body : ℕ → ℕ → ℕ → Decoder
  skip : ℕ → ℕ → Decoder
  raw : Decoder

unfoldable pub at_header : ℕ → Decoder
at_header f = if leb padding_frames f then raw else header f []

unfoldable pub at_skip : ℕ → ℕ → Decoder
at_skip f p = if ltb 0 p then skip f p else at_header f

unfoldable pub at_body : ℕ → ℕ → ℕ → Decoder
at_body f n p = if ltb 0 n then body f n p else at_skip f p

-- The data that one byte brings, and the state behind it.
unfoldable pub feed : Decoder → ℕ → List ℕ × Decoder
feed (header f []) b = ([], header f (b ∷ []))
feed (header f (h ∷ [])) b = ([], header f (h ∷ b ∷ []))
feed (header f (h ∷ l ∷ rest)) b = ([], at_body (f + 1) (h * 256 + l) b)
feed (body f n p) b = (b ∷ [], at_body f (n - 1) p)
feed (skip f p) b = ([], at_skip f (p - 1))
feed raw b = (b ∷ [], raw)

unfoldable pub decode : Decoder → List ℕ → List ℕ
decode d [] = []
decode d (b ∷ wire) = (feed d b).0 ++ decode (feed d b).1 wire

unfoldable pub behind : Decoder → List ℕ → Decoder
behind d [] = d
behind d (b ∷ wire) = behind (feed d b).1 wire

pub decode-append :
    (d : Decoder) (xs ys : List ℕ) → decode d (xs ++ ys) ≡ decode d xs ++ decode (behind d xs) ys
unfolding decode behind
decode-append d [] ys = refl
decode-append d (b ∷ xs) ys =
    ap (◌++◌ (feed d b).0) (decode-append (feed d b).1 xs ys) ∙ sym (append_assoc (feed d b).0 _ _)

pub behind-append : (d : Decoder) (xs ys : List ℕ) → behind d (xs ++ ys) ≡ behind (behind d xs) ys
unfolding behind
behind-append d [] ys = refl
behind-append d (b ∷ xs) ys = behind-append (feed d b).1 xs ys

pub decode-raw : (wire : List ℕ) → decode raw wire ≡ wire
unfolding decode feed
decode-raw [] = refl
decode-raw (b ∷ wire) = ap (◌∷◌ b) (decode-raw wire)

pub behind-raw : (wire : List ℕ) → behind raw wire ≡ raw
unfolding behind feed
behind-raw [] = refl
behind-raw (b ∷ wire) = behind-raw wire

module _ (f : ℕ) where
  -- Bytes of the data are delivered as they stand.
  pub decode-body :
      (p n : ℕ) (xs : List ℕ)
      → length xs ≤ n
      → (decode (at_body f n p) xs ≡ xs) × (behind (at_body f n p) xs ≡ at_body f (n - length xs) p)
  unfolding decode behind feed at_body
  decode-body p n [] h = (refl, ap (λ k. at_body f k p) (omega arith))
  decode-body p n (x ∷ xs) h = ground (
    arith,
    decode-body p (n - 1) xs,
    ap (λ k. at_body f k p) {x = n - 1 - length xs} {y = n - suc (length xs)} (omega arith),
  )

  -- Bytes of the padding are dropped.
  pub decode-skip :
      (p : ℕ) (xs : List ℕ)
      → length xs ≤ p
      → (decode (at_skip f p) xs ≡ []) × (behind (at_skip f p) xs ≡ at_skip f (p - length xs))
  unfolding decode behind feed at_skip
  decode-skip p [] h = (refl, ap (at_skip f) (omega arith))
  decode-skip p (x ∷ xs) h = ground (
    arith,
    decode-skip (p - 1) xs,
    ap (at_skip f) {x = p - 1 - length xs} {y = p - suc (length xs)} (omega arith),
  )

  pub decode-header :
      (h l p : ℕ)
      → (decode (header f []) (h ∷ l ∷ p ∷ []) ≡ [])
        × (behind (header f []) (h ∷ l ∷ p ∷ []) ≡ at_body (f + 1) (h * 256 + l) p)
  unfolding decode behind feed
  decode-header h l p = (refl, refl)

  -- A part of a header is kept.
  pub decode_part :
      (hdr xs : List ℕ)
      → length hdr + length xs < 3
      → (decode (header f hdr) xs ≡ []) × (behind (header f hdr) xs ≡ header f (hdr ++ xs))
  unfolding decode behind feed
  decode_part hdr [] h = (refl, ap (header f) (sym (append-nil hdr)))
  decode_part [] (x ∷ []) h = (refl, refl)
  decode_part [] (x ∷ y ∷ []) h = (refl, refl)
  decode_part (a ∷ []) (x ∷ []) h = (refl, refl)
  decode_part [] (x ∷ y ∷ z ∷ xs) h = absurd (omega arith)
  decode_part (a ∷ []) (x ∷ y ∷ xs) h = absurd (omega arith)
  decode_part (a ∷ b ∷ r) (x ∷ xs) h = absurd (omega arith)
