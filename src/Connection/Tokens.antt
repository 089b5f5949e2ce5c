-- ===== src/Connection/Tokens.antt =====
-- Tokens of the registry of core/connection.rs that have been made, and what connections show of
-- them.
use server_naive_rs.Common.{
  ℕ, ◌+◌, ◌<◌, ◌≡◌, ◌⊎◌, refl, sym, ap, ◌∙◌, arith, true, false, ◌==◌, List, [], ◌∷◌, All, Option,
  none, some, Option-cases, Bool-cases, inl, inr,
}
use server_naive_rs.Common.Assoc.{lookup, without, has}
use server_naive_rs.Connection.{ActiveConnection, ConnectionManager, is_cancelled, cancel_loop}
use server_naive_rs.Connection.Agreement.{IsConsistent, owns}
use server_naive_rs.Connection.Kick.{one_holds}
use server_naive_rs.Connection.Abstract.{Spec, seen, owned, Shows, IsMade}

owns-owned :
    (m : ConnectionManager) (o : Option ActiveConnection) (u : ℕ) → owned (seen m o) u ≡ owns o u
unfolding owns
owns-owned m none u = refl
owns-owned m (some conn) u = refl

-- The sets follow the connections in a consistent registry.
pub shows :
    (m : ConnectionManager) (s : Spec)
    → IsConsistent m
    → m.next_conn_id ≡ s.next_id
    → ((id : ℕ) → seen m (lookup m.connections id) ≡ s.conns id)
    → Shows m s
shows m s v e f = record {
  next = e;
  conns = f;
  sets = λ id u.
      v.agrees id u ∙ sym (owns-owned m (lookup m.connections id) u) ∙ ap (λ o. owned o u) (f id);
}

pub All-without :
    (n k : ℕ) (entries : List (ℕ × ActiveConnection))
    → All (λ e. e.1.cancel_token < n) entries
    → All (λ e. e.1.cancel_token < n) (without k entries)
unfolding without
All-without n k [] all = tt
All-without n k ((j, conn) ∷ entries) (first, all) = elim (Bool-cases (j == k)) [
  | inl same ↦ rw same (All-without n k entries all)
  | inr apart ↦ rw apart (first, All-without n k entries all)
]

pub All-weaker :
    (n : ℕ) (entries : List (ℕ × ActiveConnection))
    → All (λ e. e.1.cancel_token < n) entries
    → All (λ e. e.1.cancel_token < n + 1) entries
All-weaker n [] all = tt
All-weaker n (e ∷ entries) (first, all) = (omega (arith, first), All-weaker n entries all)

pub one_holds_made :
    (m : ConnectionManager)
    → IsConsistent m
    → (ids : List ℕ) (t : ℕ) → one_holds m.connections ids t ≡ true
    → t < m.next_token
one_holds_made m v [] t h = cc
one_holds_made m v (id ∷ ids) t h =
    go (Option-cases (lookup m.connections id)) (λ h'. one_holds_made m v ids t h')
  where
    go :
        (lookup m.connections id ≡ none)
          ⊎ ((conn : ActiveConnection) × (lookup m.connections id ≡ some conn))
        → (one_holds m.connections ids t ≡ true → t < m.next_token)
        → t < m.next_token
    go (inl n) rest = rest (rw n at h)
    go (inr (conn, e)) rest = elim (Bool-cases (conn.cancel_token == t)) [
      | inl same ↦ ground (arith, same, v.fresh_token id conn e)
      | inr apart ↦ rest (rw apart at (rw e at h))
    ]

pub cancel_loop_made :
    (n : ℕ) (entries : List (ℕ × ActiveConnection)) (k : ℕ) (cancelled : List ℕ)
    → All (λ e. e.1.cancel_token < n) entries
    → ((t : ℕ) → has t cancelled ≡ true → t < n)
    → (t : ℕ) → has t (cancel_loop entries k cancelled).1 ≡ true
    → t < n
unfolding cancel_loop has
cancel_loop_made n [] k cancelled all made t h = made t h
cancel_loop_made n ((id, conn) ∷ entries) k cancelled (first, all) made t h =
    cancel_loop_made n entries (k + 1) (conn.cancel_token ∷ cancelled) all
      (λ t' h'. ground (arith, made t', h', first)) t h

pub seen_kept :
    (m m' : ConnectionManager) (o : Option ActiveConnection)
    → m'.cancelled ≡ m.cancelled
    → seen m' o ≡ seen m o
unfolding is_cancelled
seen_kept m m' none e = refl
seen_kept m m' (some conn) e = rw e refl

-- A token that has not been made is not cancelled.
pub unmade : (m : ConnectionManager) → IsMade m → is_cancelled m m.next_token ≡ false
unmade m w = elim (Bool-cases (is_cancelled m m.next_token)) [
  | inl c ↦ absurd (omega (arith, w.cancelled_made m.next_token c))
  | inr n ↦ n
]
