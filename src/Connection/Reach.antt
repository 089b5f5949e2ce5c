-- ===== src/Connection/Reach.antt =====
-- The states that the registry can be in.
use server_naive_rs.Common.{
  ℕ, ◌+◌, ◌^◌, ◌<◌, ◌≡◌, ◌≢◌, refl, sym, ap, ◌∙◌, arith, true, false, ==_refl, List, [], ◌∷◌,
  length, some,
}
use server_naive_rs.Common.Assoc.{lookup, has}
use server_naive_rs.Address.{SocketAddr}
use server_naive_rs.Connection.{
  ActiveConnection, ConnectionManager, new, or_default, register, unregister, kick_user, cancel_all,
  connection_count, user_count,
}
use server_naive_rs.Connection.Agreement.{
  IsConsistent, owns, new-IsConsistent, register_lem, unregister_lem,
}

-- Any history of calls, with fewer than 2^64 registrations.
pub data Reachable : ConnectionManager → Type 0 where
  start : Reachable new
  registered :
      {self : ConnectionManager} (u : ℕ) (peer : SocketAddr) (now : ℕ)
      → Reachable self
      → self.next_conn_id + 1 < 2 ^ 64
      → Reachable (register self u peer now).1
  unregistered :
      {self : ConnectionManager} (id : ℕ) → Reachable self → Reachable (unregister self id)
  kicked : {self : ConnectionManager} (u : ℕ) → Reachable self → Reachable (kick_user self u).1
  all_cancelled : {self : ConnectionManager} → Reachable self → Reachable (cancel_all self).1

module _ (self : ConnectionManager) (v : IsConsistent self) where
  pub kick_user-IsConsistent : (u : ℕ) → IsConsistent (kick_user self u).1
  unfolding kick_user
  kick_user-IsConsistent u = record {
    agrees = v.agrees;
    inhabited = v.inhabited;
    fresh_id = v.fresh_id;
    fresh_token = v.fresh_token;
    distinct = v.distinct;
  }

  pub cancel_all-IsConsistent : IsConsistent (cancel_all self).1
  unfolding cancel_all
  cancel_all-IsConsistent = record {
    agrees = v.agrees;
    inhabited = v.inhabited;
    fresh_id = v.fresh_id;
    fresh_token = v.fresh_token;
    distinct = v.distinct;
  }

pub Reachable-IsConsistent : {self : ConnectionManager} → Reachable self → IsConsistent self
Reachable-IsConsistent start = new-IsConsistent
Reachable-IsConsistent (registered {self} u peer now before room) =
    (register_lem self (Reachable-IsConsistent before) u peer now room).0
Reachable-IsConsistent (unregistered {self} id before) =
    (unregister_lem self (Reachable-IsConsistent before) id).0
Reachable-IsConsistent (kicked {self} u before) =
    kick_user-IsConsistent self (Reachable-IsConsistent before) u
Reachable-IsConsistent (all_cancelled {self} before) =
    cancel_all-IsConsistent self (Reachable-IsConsistent before)

-- Without connections there is no user.
no_users :
    (self : ConnectionManager)
    → ((id u : ℕ)
        → has id (or_default (lookup self.user_connections u))
          ≡ owns (lookup self.connections id) u)
    → ((u : ℕ) → lookup self.user_connections u ≢ some [])
    → (connections : List (ℕ × ActiveConnection)) (users : List (ℕ × List ℕ))
    → self.connections ≡ connections
    → self.user_connections ≡ users
    → length connections ≡ 0
    → length users ≡ 0
unfolding or_default has owns lookup
no_users self agrees inhabited connections [] c e z = refl
no_users self agrees inhabited (conn ∷ connections) (entry ∷ users) c e z = omega (arith, z)
no_users self agrees inhabited [] ((u, ids) ∷ users) c e z = go ids first
  where
    first : lookup self.user_connections u ≡ some ids
    first = ap (λ m. lookup m u) e ∙ ground (arith, ==_refl u)

    go : (s : List ℕ) → lookup self.user_connections u ≡ some s → length ((u, ids) ∷ users) ≡ 0
    go [] f = absurd (inhabited u f)
    go (id ∷ s) f = cc (sym (member id s f) ∙ agrees id u ∙ nobody id)
      where
        member :
            (i : ℕ) (t : List ℕ)
            → lookup self.user_connections u ≡ some (i ∷ t)
            → has i (or_default (lookup self.user_connections u)) ≡ true
        member i t g = rw g (ground (arith, ==_refl i))

        nobody : (i : ℕ) → owns (lookup self.connections i) u ≡ false
        nobody i = rw c refl

-- In every state that a history of calls leads to, with fewer than 2^64 registrations, the two maps
-- agree on whose a connection is, and if no connection is left no user is.
pub Reachable-drained :
    {self : ConnectionManager}
    → Reachable self
    → ((id u : ℕ)
        → has id (or_default (lookup self.user_connections u))
          ≡ owns (lookup self.connections id) u)
      × (connection_count self ≡ 0 → user_count self ≡ 0)
unfolding connection_count user_count
Reachable-drained {self} r =
    let v = Reachable-IsConsistent r in
    (v.agrees, no_users self v.agrees v.inhabited self.connections self.user_connections refl refl)
