-- ===== src/Outbound/Named.antt =====
-- Looking a name up in the map of the outbounds.
use Prim.Native.String.{String}
use text.Mathlib.Text.{◌==◌ as str_eq}
use text.Mathlib.TextEquality.{eq_iff}
use server_naive_rs.Common.{
  ◌≡◌, refl, sym, ap, ◌∙◌, true, false, [], ◌∷◌, Option, none, some, if◌then◌else◌, Bool-cases, inl,
  inr,
}
use server_naive_rs.Router.{OutboundHandler}
use server_naive_rs.Router.Acl.{get}
use server_naive_rs.Outbound.Engine.{Outbounds, without, insert, or_insert}

str_eq-same : (s t u : String) → str_eq s t ≡ true → str_eq s u ≡ str_eq t u
str_eq-same s t u e = ap (λ x. str_eq x u) ((eq_iff s t).0 e)

get-without :
    {D : Type 0} (name : String) (m : Outbounds D) (k : String)
    → str_eq name k ≡ false
    → get (without name m) k ≡ get m k
unfolding get without
get-without name [] k e = refl
get-without name ((n, h) ∷ m) k e = elim (Bool-cases (str_eq n name)) [
  | inl same ↦ rw (same, str_eq-same n name k same, e) (get-without name m k e)
  | inr other ↦ rw (other, get-without name m k e) refl
]

pub get-insert :
    {D : Type 0} (name : String) (h : OutboundHandler D) (m : Outbounds D) (k : String)
    → get (insert name h m) k ≡ (if str_eq name k then some h else get m k)
unfolding get insert
get-insert name h m k = elim (Bool-cases (str_eq name k)) [
  | inl same ↦ rw same refl
  | inr other ↦ rw (other, get-without name m k other) refl
]

-- What stands for a name behind `or_insert`.
abbrev pub or_else : {A : Type 0} → Option A → Option A → Option A
or_else none b = b
or_else (some a) b = some a

pub get-or_insert :
    {D : Type 0} (name : String) (h : OutboundHandler D) (m : Outbounds D) (k : String)
    → get (or_insert name h m) k ≡ or_else (get m k) (if str_eq name k then some h else none)
unfolding get or_insert
get-or_insert {D} name h m k = go (get m name) refl
  where
    same_get :
        (o : Option (OutboundHandler D)) → get m name ≡ o → str_eq name k ≡ true → get m k ≡ o
    same_get o q e = ap (get m) (sym ((eq_iff name k).0 e)) ∙ q

    right : (o b : Option (OutboundHandler D)) → o ≡ or_else o none
    right none b = refl
    right (some a) b = refl

    go :
        (o : Option (OutboundHandler D))
        → get m name ≡ o
        → get (elim o [ none ↦ (name, h) ∷ m | some old ↦ m ]) k
          ≡ or_else (get m k) (if str_eq name k then some h else none)
    go none q = elim (Bool-cases (str_eq name k)) [
      | inl same ↦ rw (same, same_get none q same) refl
      | inr other ↦ rw other (right (get m k) none)
    ]
    go (some old) q = elim (Bool-cases (str_eq name k)) [
      | inl same ↦ rw (same, same_get (some old) q same) refl
      | inr other ↦ rw other (right (get m k) none)
    ]
