-- ===== src/Common/Bits.antt =====
-- Masks on bytes and 16-bit words as arithmetic. Each is a table, which evaluation compares.
use Prim.Native.Nat.{ℕ, zero, suc, ◌*◌, ◌/◌, ◌<◌, bit_and}
use mathlib.Core.Path.{◌≡◌, refl}
use mathlib.Core.Bool.{Bool, true, false}
use mathlib.Core.Logic.{◌⊎◌, inl, inr}
use native.Mathlib.Omega.{arith}
use server_naive_rs.Common.Tests.{◌==◌, ==_iff, if◌then◌else◌}

-- Whether two functions agree at all arguments below the number.
agree : (ℕ → ℕ) → (ℕ → ℕ) → ℕ → Bool
agree f g zero = true
agree f g (suc n) = let below = agree f g n in if f n == g n then below else false

-- So they do, then: the tables of this file rest on it.
agree-all : (f g : ℕ → ℕ) (n : ℕ) → agree f g n ≡ true → (x : ℕ) → x < n → f x ≡ g x
unfolding agree
agree-all f g zero table x lt = omega arith
agree-all f g (suc n) table x lt = elim last_or_below [
  | inl last ↦ (==_iff (f x) (g x)).0 (ground arith)
  | inr below ↦ agree-all f g n (ground arith) x below
]
  where
    last_or_below : (x ≡ n) ⊎ (x < n)
    last_or_below = ground arith

pub bit_and-c0 : (x : ℕ) → x < 256 → bit_and x 0xc0 ≡ x / 64 * 64
unfolding agree
bit_and-c0 = agree-all (λ x. bit_and x 0xc0) (λ x. x / 64 * 64) 256 refl

pub bit_and-fe00 : (x : ℕ) → x < 65536 → bit_and x 0xfe00 ≡ x / 512 * 512
unfolding agree
bit_and-fe00 = agree-all (λ x. bit_and x 0xfe00) (λ x. x / 512 * 512) 65536 refl

pub bit_and-ffc0 : (x : ℕ) → x < 65536 → bit_and x 0xffc0 ≡ x / 64 * 64
unfolding agree
bit_and-ffc0 = agree-all (λ x. bit_and x 0xffc0) (λ x. x / 64 * 64) 65536 refl
