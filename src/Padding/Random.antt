-- ===== src/Padding/Random.antt =====
-- The xorshift64 generator of src/transport/padding.rs and the `Padding` response header.
-- The thread-local state is passed along; `nanos` is what the clock shows where a call reads it,
-- which is while the state is 0.
use server_naive_rs.Common.{
  ℕ, zero, suc, ◌+◌, ◌-◌, ◌*◌, ◌/◌, ◌%◌, ◌^◌, ◌≤◌, ◌<◌, ◌≡◌, true, ==_refl, refl, arith, bit_xor,
  List, [], ◌∷◌, ◌++◌, ◌==◌, ap, if◌then◌else◌, length, get_or, replicate, All,
}
use server_naive_rs.Stream.{IsByte}
use server_naive_rs.Common.Assoc.{has}

abbrev pub u64_mod : ℕ
u64_mod = 2 ^ 64

abbrev golden : ℕ
golden = 0x9e37_79b9_7f4a_7c15

seed : ℕ → ℕ
seed nanos =
    let s = bit_xor (bit_xor nanos (nanos * 2 ^ 17 % u64_mod)) golden in
    if s == 0 then golden else s

xorshift : ℕ → ℕ
xorshift s =
    let s1 = bit_xor s (s * 2 ^ 13 % u64_mod) in
    let s2 = bit_xor s1 (s1 / 2 ^ 7) in bit_xor s2 (s2 * 2 ^ 17 % u64_mod)

draw : ℕ → ℕ → List ℕ × ℕ
draw zero s = ([], s)
draw (suc n) s = let s' = xorshift s in let (bytes, end) = draw n s' in ((s' % 256) ∷ bytes, end)

-- `count` bytes, and the state behind them.
unfoldable pub gen_random_bytes : ℕ → ℕ → ℕ → List ℕ × ℕ
unfolding seed xorshift draw
gen_random_bytes nanos s count = draw count (if s == 0 then seed nanos else s)

unfoldable pub random_u8 : ℕ → ℕ → ℕ × ℕ
unfolding gen_random_bytes
random_u8 nanos s = let (bytes, s') = gen_random_bytes nanos s 1 in (get_or bytes 0 0, s')

-- `b"!#$()+<>?@[]^`{}"`.
abbrev pub chars : List ℕ
chars =
    0x21 ∷ 0x23 ∷ 0x24 ∷ 0x28 ∷ 0x29 ∷ 0x2b ∷ 0x3c ∷ 0x3e ∷ 0x3f ∷ 0x40 ∷ 0x5b ∷ 0x5d ∷ 0x5e ∷ 0x60
    ∷ 0x7b ∷ 0x7d ∷ []

-- `u64::from_le_bytes`.
from_le_bytes : List ℕ → ℕ
from_le_bytes [] = 0
from_le_bytes (b ∷ bs) = b + 256 * from_le_bytes bs

-- `CHARS[bits & 15]; bits >>= 4`, `n` times.
lead : ℕ → ℕ → List ℕ
lead zero bits = []
lead (suc n) bits = get_or chars (bits % 16) 0 ∷ lead n (bits / 16)

unfoldable pub generate_padding_header : ℕ → ℕ → ℕ → List ℕ × ℕ
unfolding random_u8 gen_random_bytes lead from_le_bytes
generate_padding_header nanos nanos' s =
    let (b, s1) = random_u8 nanos s in
    let len = b % 32 + 30 in
    let (bits_buf, s2) = gen_random_bytes nanos' s1 8 in
    (lead 16 (from_le_bytes bits_buf) ++ replicate (len - 16) b'~', s2)

draw-bytes : (n s : ℕ) → (length (draw n s).0 ≡ n) × All IsByte (draw n s).0
unfolding draw
draw-bytes zero s = (refl, tt)
draw-bytes (suc n) s =
    (ap suc (draw-bytes n (xorshift s)).0, (omega arith, (draw-bytes n (xorshift s)).1))

pub gen_random_bytes-bytes :
    (nanos s n : ℕ)
    → (length (gen_random_bytes nanos s n).0 ≡ n) × All IsByte (gen_random_bytes nanos s n).0
unfolding gen_random_bytes
gen_random_bytes-bytes nanos s n = draw-bytes n _

pub random_u8-le : (nanos s : ℕ) → (random_u8 nanos s).0 ≤ 255
unfolding random_u8 gen_random_bytes draw
random_u8-le nanos s = omega arith

-- Whether a byte is one of CHARS.
abbrev pub IsLead : ℕ → Type 0
IsLead c = has c chars ≡ true

get_or-has : (xs : List ℕ) (i : ℕ) → i < length xs → has (get_or xs i 0) xs ≡ true
unfolding has
get_or-has [] i h = absurd (omega arith)
get_or-has (x ∷ xs) zero h = ground (arith, ==_refl x)
get_or-has (x ∷ xs) (suc i) h = ground (arith, get_or-has xs i (omega arith))

lead-IsLead : (n bits : ℕ) → (length (lead n bits) ≡ n) × All IsLead (lead n bits)
unfolding lead
lead-IsLead zero bits = (refl, tt)
lead-IsLead (suc n) bits = (
  ap suc (lead-IsLead n (bits / 16)).0,
  (get_or-has chars (bits % 16) (omega arith), (lead-IsLead n (bits / 16)).1),
)

-- Whatever the clock and the generator give, the value of the `Padding` header is 16 characters of
-- CHARS and, behind them, 14 to 45 times '~': 30 to 61 in all.
pub generate_padding_header_lem :
    (nanos nanos' s : ℕ)
    → (start : List ℕ) × (n : ℕ) × ((generate_padding_header nanos nanos' s).0
        ≡ start ++ replicate n b'~')
      × (length start ≡ 16)
      × All IsLead start
      × (14 ≤ n)
      × (n ≤ 45)
unfolding generate_padding_header
generate_padding_header_lem nanos nanos' s =
    let (b, s1) = random_u8 nanos s in
    let bits = from_le_bytes (gen_random_bytes nanos' s1 8).0 in
    (
      lead 16 bits,
      b % 32 + 30 - 16,
      refl,
      (lead-IsLead 16 bits).0,
      (lead-IsLead 16 bits).1,
      omega arith,
      omega arith,
    )
