-- ===== src/Common/Assoc.antt =====
-- Maps keyed by numbers, as association lists, and sets of numbers, as lists.
use Prim.Native.Nat.{ℕ}
use mathlib.Core.Path.{◌≡◌}
use mathlib.Core.Bool.{Bool, false, not, ◌&&◌, ◌||◌}
use mathlib.Core.Option.{Option, none, some}
use mathlib.Core.List.{List, [], ◌∷◌}
use native.Mathlib.Omega.{arith}
use server_naive_rs.Common.Tests.{◌==◌, if◌then◌else◌}

unfoldable pub lookup {ℓ} : {A : Type ℓ} → List (ℕ × A) → ℕ → Option A
lookup [] k = none
lookup ((j, a) ∷ m) k = if j == k then some a else lookup m k

unfoldable pub without {ℓ} : {A : Type ℓ} → ℕ → List (ℕ × A) → List (ℕ × A)
without k [] = []
without k ((j, a) ∷ m) = let rest = without k m in if j == k then rest else (j, a) ∷ rest

unfoldable pub put {ℓ} : {A : Type ℓ} → ℕ → A → List (ℕ × A) → List (ℕ × A)
unfolding without
put k a m = (k, a) ∷ without k m

unfoldable pub has : ℕ → List ℕ → Bool
has x [] = false
has x (y ∷ s) = y == x || has x s

-- `HashSet::insert` and `HashSet::remove`.
unfoldable pub with_member : ℕ → List ℕ → List ℕ
unfolding has
with_member x s = if has x s then s else x ∷ s

unfoldable pub without_member : ℕ → List ℕ → List ℕ
without_member x [] = []
without_member x (y ∷ s) = let rest = without_member x s in if y == x then rest else y ∷ rest

module _ {ℓ} {A : Type ℓ} where
  pub lookup-without :
      (k : ℕ) (m : List (ℕ × A)) (j : ℕ)
      → lookup (without k m) j ≡ (if k == j then none else lookup m j)
  unfolding lookup without
  lookup-without k [] j = ground arith
  lookup-without k ((i, a) ∷ m) j = ground (arith, lookup-without k m j)

  pub lookup-put :
      (k : ℕ) (a : A) (m : List (ℕ × A)) (j : ℕ)
      → lookup (put k a m) j ≡ (if k == j then some a else lookup m j)
  unfolding lookup put
  lookup-put k a m j = ground (arith, lookup-without k m j)

pub has-with_member : (x : ℕ) (s : List ℕ) (y : ℕ) → has y (with_member x s) ≡ (x == y || has y s)
unfolding has with_member
has-with_member x s y = ground arith

pub has-without_member :
    (x : ℕ) (s : List ℕ) (y : ℕ) → has y (without_member x s) ≡ (not (x == y) && has y s)
unfolding has without_member
has-without_member x [] y = ground arith
has-without_member x (z ∷ s) y = ground (arith, has-without_member x s y)
