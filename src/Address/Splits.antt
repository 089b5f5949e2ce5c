-- ===== src/Address/Splits.antt =====
-- The splits of a text in `Address::from_authority` of core/address.rs.
use server_naive_rs.Common.{
  ℕ, ◌≡◌, refl, ap, arith, Bool, true, false, ◌==◌, ==_iff, List, [], ◌∷◌, ◌++◌, Option, none, some,
  if◌then◌else◌, Option-cases, inl, inr,
}
use server_naive_rs.Common.Assoc.{has}
use server_naive_rs.Address.Authority.{and_some, split_first, split_last}

pub split_first-append :
    (c : ℕ) (h t : List ℕ) → has c h ≡ false → split_first c (h ++ (c ∷ t)) ≡ some (h, t)
unfolding split_first has and_some
split_first-append c [] t n = ground arith
split_first-append c (b ∷ h) t n = ground (arith, n, split_first-append c h t)

split_last-none : (c : ℕ) (t : List ℕ) → has c t ≡ false → split_last c t ≡ none
unfolding split_last has
split_last-none c [] n = refl
split_last-none c (b ∷ t) n = ground (arith, n, split_last-none c t)

pub split_last-append :
    (c : ℕ) (h t : List ℕ) → has c t ≡ false → split_last c (h ++ (c ∷ t)) ≡ some (h, t)
unfolding split_last
split_last-append c [] t n = ground (arith, split_last-none c t n)
split_last-append c (b ∷ h) t n = ground (arith, split_last-append c h t n)

free_of_none : (c : ℕ) (s : List ℕ) → split_last c s ≡ none → has c s ≡ false
unfolding split_last has
free_of_none c [] e = refl
free_of_none c (b ∷ s) e = elim (Option-cases (split_last c s)) [
  | inl n ↦ ground (arith, rw n at e, free_of_none c s n)
  | inr ((before, behind), f) ↦ cc (rw f at e)
]

abbrev parts : List ℕ → List ℕ → Option (List ℕ × List ℕ)
parts before behind = some (before, behind)

some_pair : {h h' t t' : List ℕ} → parts h t ≡ parts h' t' → (h ≡ h') × (t ≡ t')
some_pair e = (cc, cc)

-- What the splits find.
pub split_first_sound :
    (c : ℕ) (s h t : List ℕ)
    → split_first c s ≡ some (h, t)
    → (s ≡ h ++ (c ∷ t)) × (has c h ≡ false)
unfolding split_first has and_some
split_first_sound c [] h t e = cc
split_first_sound c (b ∷ s) h t e =
    go (split_first_sound c s) (b == c) (split_first c s) refl refl e
  where
    go :
        ((h' t' : List ℕ)
          → split_first c s ≡ some (h', t')
          → (s ≡ h' ++ (c ∷ t')) × (has c h' ≡ false))
        → (q : Bool) (o : Option (List ℕ × List ℕ)) → (b == c) ≡ q
        → split_first c s ≡ o
        → (if q then parts [] s else and_some o (λ (before, behind). parts (b ∷ before) behind))
          ≡ some (h, t)
        → (b ∷ s ≡ h ++ (c ∷ t)) × (has c h ≡ false)
    go ih true o eq eo f = let (p, q) = some_pair f in rw (← p, ← q, (==_iff b c).0 eq) (refl, refl)
    go ih false none eq eo f = cc
    go ih false (some (before, behind)) eq eo f =
        let (cut, free) = ih before behind eo in
        let (p, q) = some_pair f in rw (← p, ← q) (ap (◌∷◌ b) cut, ground (arith, eq, free))

pub split_last_sound :
    (c : ℕ) (s h t : List ℕ) → split_last c s ≡ some (h, t) → (s ≡ h ++ (c ∷ t)) × (has c t ≡ false)
unfolding split_last has
split_last_sound c [] h t e = cc
split_last_sound c (b ∷ s) h t e = go (split_last_sound c s) (split_last c s) (b == c) refl refl e
  where
    go :
        ((h' t' : List ℕ)
          → split_last c s ≡ some (h', t')
          → (s ≡ h' ++ (c ∷ t')) × (has c t' ≡ false))
        → (o : Option (List ℕ × List ℕ)) (q : Bool) → split_last c s ≡ o
        → (b == c) ≡ q
        → (elim o [
          | some (before, behind) ↦ parts (b ∷ before) behind
          | none ↦ if q then parts [] s else none
        ])
          ≡ some (h, t)
        → (b ∷ s ≡ h ++ (c ∷ t)) × (has c t ≡ false)
    go ih none false eo eq f = cc
    go ih none true eo eq f =
        let (p, q) = some_pair f in
        rw (← p, ← q) (ap (λ x. x ∷ s) ((==_iff b c).0 eq), free_of_none c s eo)
    go ih (some (before, behind)) q eo eq f =
        let (cut, free) = ih before behind eo in
        let (p, q) = some_pair f in rw (← p, ← q) (ap (◌∷◌ b) cut, free)
