-- ===== src/Connection/Settled.antt =====
-- What tasks that interleave on the registry of core/connection.rs can rely on.
use server_naive_rs.Common.{
  ℕ, ◌≡◌, ◌≢◌, ◌⊎◌, inl, inr, refl, sym, ap, ◌∙◌, arith, true, false, ==_iff, ==_refl, List, [],
  ◌∷◌, length, none, some,
}
use server_naive_rs.Common.Assoc.{lookup, has}
use server_naive_rs.Connection.{
  ActiveConnection, or_default, is_cancelled, connection_count, user_count,
}
use server_naive_rs.Connection.Agreement.{owns}
use server_naive_rs.Connection.Interleaved.{
  Phase, unused, numbered, inserted, listed, removed, gone, kicking, System, Reach, present, member,
  settled,
}
use server_naive_rs.Connection.InStep.{IsInStep, Reach-Good}

-- A call of `register` or `unregister` is half way.
abbrev pub IsMoving : System → ℕ → Type 0
IsMoving s id = settled (s.phase id) ≡ false

-- The maps agree on whose a connection is, or its task is half way; and without connections there are
-- no users, or some task is half way.
abbrev pub Agree : System → Type 0
Agree s =
    ((id : ℕ)
      → IsMoving s id
        ⊎ ((u : ℕ)
            → has id (or_default (lookup s.registry.user_connections u))
              ≡ owns (lookup s.registry.connections id) u))
    × ((connection_count s.registry ≢ 0) ⊎ (user_count s.registry ≡ 0) ⊎ ((id : ℕ) × IsMoving s id))

agrees_or_moves : (p : Phase) → (settled p ≡ false) ⊎ ((u : ℕ) → member p u ≡ owns (present p) u)
unfolding owns
agrees_or_moves unused = inr (λ u. refl)
agrees_or_moves (numbered conn) = inl refl
agrees_or_moves (inserted conn) = inl refl
agrees_or_moves (listed conn) = inr (λ u. refl)
agrees_or_moves (removed conn) = inl refl
agrees_or_moves gone = inr (λ u. refl)

absent_moves : (p : Phase) (u : ℕ) → present p ≡ none → member p u ≡ true → settled p ≡ false
absent_moves unused u e m = cc
absent_moves (numbered conn) u e m = refl
absent_moves (inserted conn) u e m = refl
absent_moves (listed conn) u e m = cc
absent_moves (removed conn) u e m = refl
absent_moves gone u e m = cc

-- A user without connections is left by a task that is half way.
left_users :
    (s : System) (connections : List (ℕ × ActiveConnection)) (users : List (ℕ × List ℕ))
    → IsInStep s
    → s.registry.connections ≡ connections
    → s.registry.user_connections ≡ users
    → (length connections ≢ 0) ⊎ (length users ≡ 0) ⊎ ((id : ℕ) × IsMoving s id)
unfolding lookup or_default has
left_users s connections [] v c e = inr (inl refl)
left_users s (conn ∷ connections) (entry ∷ users) v c e = inl (λ z. omega (arith, z))
left_users s [] ((u, ids) ∷ users) v c e = inr (inr (go ids first))
  where
    first : lookup s.registry.user_connections u ≡ some ids
    first = ap (λ m. lookup m u) e ∙ ground (arith, ==_refl u)

    go : (t : List ℕ) → lookup s.registry.user_connections u ≡ some t → (id : ℕ) × IsMoving s id
    go [] f = absurd (v.inhabited u f)
    go (id ∷ t) f = (id, absent_moves (s.phase id) u absent (sym (v.sets id u) ∙ listed_here))
      where
        absent : present (s.phase id) ≡ none
        absent = sym (v.conns id) ∙ rw c refl

        listed_here : has id (or_default (lookup s.registry.user_connections u)) ≡ true
        listed_here = rw f (ground (arith, ==_refl id))

-- However the single accesses of the tasks that register, unregister, kick and cancel interleave,
-- with fewer than 2^64 registrations, each map stands as the tasks have left it: a connection is in
-- `connections` exactly between its insertion and its removal, and in its user's set exactly between
-- its listing and its taking out. The maps agree on each connection whose task is not half way, and
-- no connections means no users, unless some task is half way.
pub Reach-Agree :
    {s : System}
    → Reach s
    → ((id : ℕ) → lookup s.registry.connections id ≡ present (s.phase id))
      × ((id u : ℕ)
          → has id (or_default (lookup s.registry.user_connections u)) ≡ member (s.phase id) u)
      × Agree s
unfolding connection_count user_count
Reach-Agree {s} r =
    let v = (Reach-Good r).0 in
    (
      v.conns,
      v.sets,
      (
        λ id. agrees v id (agrees_or_moves (s.phase id)),
        left_users s s.registry.connections s.registry.user_connections v refl refl,
      ),
    )
  where
    agrees :
        IsInStep s
        → (id : ℕ)
        → IsMoving s id ⊎ ((u : ℕ) → member (s.phase id) u ≡ owns (present (s.phase id)) u)
        → IsMoving s id
          ⊎ ((u : ℕ)
              → has id (or_default (lookup s.registry.user_connections u))
                ≡ owns (lookup s.registry.connections id) u)
    agrees v id (inl moving) = inl moving
    agrees v id (inr same) = inr (λ u. v.sets id u ∙ same u ∙ ap (λ o. owns o u) (sym (v.conns id)))

listed_both :
    (p : Phase) (conn : ActiveConnection) (u : ℕ)
    → present p ≡ some conn
    → member p u ≡ true
    → (p ≡ listed conn) × (conn.info.user_id ≡ u)
listed_both (listed c) conn u e m = ground (arith, e, m, ==_iff c.info.user_id u)
listed_both unused conn u e m = cc
listed_both (numbered c) conn u e m = cc
listed_both (inserted c) conn u e m = cc
listed_both (removed c) conn u e m = cc
listed_both gone conn u e m = cc

-- In every interleaving, once `kick_user` has gone through the user's set, each connection of that set
-- that is still registered is cancelled.
pub Reach-kicked :
    {s : System} (u : ℕ)
    → Reach s
    → s.kick ≡ kicking u []
    → (id : ℕ) (conn : ActiveConnection)
    → has id (or_default (lookup s.registry.user_connections u)) ≡ true
    → lookup s.registry.connections id ≡ some conn
    → is_cancelled s.registry conn.cancel_token ≡ true
unfolding is_cancelled has
Reach-kicked {s} u r e id conn m f =
    let (v, visited) = Reach-Good r in
    let (here, same) =
      listed_both (s.phase id) conn u (sym (v.conns id) ∙ f) (sym (v.sets id u) ∙ m) in
    (rw e at visited) id conn here same refl
