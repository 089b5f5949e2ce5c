-- ===== src/Padding/Write/Framing.antt =====
-- What `build_frame` writes is one frame of the protocol.
use server_naive_rs.Common.{
  ℕ, ◌+◌, ◌*◌, ◌/◌, ◌%◌, ◌≤◌, ◌<◌, ◌≡◌, refl, ap, ◌∙◌, arith, List, [], ◌∷◌, ◌++◌, length,
  append-nil,
}
use server_naive_rs.Padding.Protocol.{
  Decoder, header, raw, at_header, at_body, at_skip, decode, behind, decode-append, behind-append,
  decode-body, decode-skip, decode-raw, behind-raw, decode-header,
}
use server_naive_rs.Padding.Write.{build_frame}

-- A decoder reads `wire` as `payload`, and then stands at `next`.
abbrev pub Reads : Decoder → List ℕ → List ℕ → Decoder → Type 0
Reads d wire payload next = (decode d wire ≡ payload) × (behind d wire ≡ next)

pub Reads-append :
    (d : Decoder) (xs ys : List ℕ) {ps qs : List ℕ} {e g : Decoder}
    → Reads d xs ps e
    → Reads e ys qs g
    → Reads d (xs ++ ys) (ps ++ qs) g
Reads-append d xs ys a b =
    (rw (decode-append d xs ys, a.0, a.1, b.0), rw (behind-append d xs ys, a.1, b.1))

pub Reads-raw : (wire : List ℕ) → Reads raw wire wire raw
Reads-raw wire = (decode-raw wire, behind-raw wire)

at_body_zero : (f p : ℕ) → at_body f 0 p ≡ at_skip f p
unfolding at_body
at_body_zero f p = refl

at_skip_zero : (f : ℕ) → at_skip f 0 ≡ at_header f
unfolding at_skip
at_skip_zero f = refl

Reads-body :
    (f p n : ℕ) (chunk : List ℕ)
    → length chunk ≡ n
    → Reads (at_body f n p) chunk chunk (at_skip f p)
Reads-body f p n chunk e =
    let d = decode-body f p n chunk (omega arith) in
    (d.0, d.1 ∙ ap (λ k. at_body f k p) {y = 0} (omega arith) ∙ at_body_zero f p)

Reads-skip : (f p : ℕ) (pad : List ℕ) → length pad ≡ p → Reads (at_skip f p) pad [] (at_header f)
Reads-skip f p pad e =
    let d = decode-skip f p pad (omega arith) in
    (d.0, d.1 ∙ ap (at_skip f) {y = 0} (omega arith) ∙ at_skip_zero f)

at_header_open : (f : ℕ) → f < 8 → at_header f ≡ header f []
unfolding at_header
at_header_open f h = ground arith

-- One frame, read whole: its data, and the decoder at the next header.
pub Reads-build_frame :
    (f pad_size : ℕ) (chunk pad : List ℕ)
    → f < 8
    → length chunk ≤ 65535
    → length pad ≡ pad_size
    → pad_size ≤ 255
    → Reads (at_header f) (build_frame chunk pad_size pad) chunk (at_header (f + 1))
unfolding build_frame
Reads-build_frame f pad_size chunk pad free short e small = rw (at_header_open f free) (
    rw append-nil at (
      Reads-append (header f []) (hi ∷ lo ∷ p ∷ []) (chunk ++ pad) (decode-header f hi lo p) (
        Reads-append (at_body (f + 1) (hi * 256 + lo) p) chunk pad
          (Reads-body (f + 1) p (hi * 256 + lo) chunk (omega arith))
          (Reads-skip (f + 1) p pad (omega arith)))))
  where
    hi : ℕ
    hi = length chunk % 65536 / 256

    lo : ℕ
    lo = length chunk % 65536 % 256

    p : ℕ
    p = pad_size % 256
