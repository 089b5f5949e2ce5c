-- ===== src/Connection/Visits.antt =====
-- What a kick has done in an interleaving of the registry of core/connection.rs.
use server_naive_rs.Common.{
  ℕ, ◌≡◌, sym, ap, ◌∙◌, arith, true, false, ◌==◌, Option, none, some, Bool-cases, inl, inr,
}
use server_naive_rs.Common.Assoc.{has}
use server_naive_rs.Connection.{ActiveConnection, ConnectionManager}
use server_naive_rs.Connection.Steps.{cancel_found}
use server_naive_rs.Connection.Interleaved.{
  Phase, listed, Kick, idle, kicking, System, update, IsFree,
}

abbrev pub user_of : Option ActiveConnection → ℕ
user_of none = 0
user_of (some conn) = conn.info.user_id

-- A kick has cancelled what stands in both maps for its user and is not still to be looked up.
abbrev pub Visited : System → Kick → Type 0
Visited s idle = Unit
Visited s (kicking u ids) =
    (id : ℕ) (conn : ActiveConnection)
    → s.phase id ≡ listed conn
    → conn.info.user_id ≡ u
    → has id ids ≡ false
    → has conn.cancel_token s.registry.cancelled ≡ true

module _ (s : System) where
  -- An access that cancels nothing and brings no connection of the user into both maps.
  pub keep-Visited :
      (k : Kick) (id : ℕ) (p : Phase) (r : ConnectionManager)
      → r.cancelled ≡ s.registry.cancelled
      → ((conn : ActiveConnection) → p ≡ listed conn → IsFree k conn.info.user_id)
      → Visited s k
      → Visited (record s { registry = r; phase = update s.phase id p }) k
  keep-Visited idle id p r e free before = tt
  keep-Visited (kicking u ids) id p r e free before = λ j conn f same h.
      elim (Bool-cases (id == j)) [
        | inl here ↦ absurd (free conn (rw here at f) (sym same))
        | inr apart ↦ ap (has conn.cancel_token) e ∙ before j conn (rw apart at f) same h
      ]

  pub cancel-Visited :
      (k : Kick) (o : Option ActiveConnection)
      → Visited s k
      → Visited (record s { registry = cancel_found o s.registry }) k
  unfolding cancel_found has
  cancel-Visited idle o before = tt
  cancel-Visited (kicking u ids) none before = before
  cancel-Visited (kicking u ids) (some c) before =
      λ j conn f same h. ground (arith, before j conn f same h)
