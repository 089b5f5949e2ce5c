-- ===== src/Shutdown/Kicks.antt =====
-- Whom a change of the users kicks.
use server_naive_rs.Common.{
  ℕ, ◌+◌, ◌≡◌, refl, ap, ◌∙◌, arith, ◌||◌, List, [], ◌∷◌, ◌++◌, length, Option, none, some,
}
use server_naive_rs.Common.Assoc.{lookup, has}
use server_naive_rs.Connection.{
  ActiveConnection, ConnectionManager, or_default, kick_user, is_cancelled,
}
use server_naive_rs.Connection.Agreement.{IsConsistent}
use server_naive_rs.Connection.Kick.{kick_user_lem}
use server_naive_rs.Connection.Reach.{kick_user-IsConsistent}
use server_naive_rs.Shutdown.{UserDiff, kick_ids, kick_each, on_user_diff}

-- The connections of the users' sets, a user counted as often as it is listed.
unfoldable pub listed_of : ConnectionManager → List ℕ → ℕ
unfolding or_default
listed_of manager [] = 0
listed_of manager (u ∷ ids) =
    length (or_default (lookup manager.user_connections u)) + listed_of manager ids

-- A connection is cancelled exactly if its user is kicked or it was cancelled before.
abbrev pub IsKicked :
    ConnectionManager → List ℕ → ConnectionManager → Option ActiveConnection → Type 0
IsKicked manager ids after none = Unit
IsKicked manager ids after (some conn) =
    is_cancelled after conn.cancel_token
    ≡ (has conn.info.user_id ids || is_cancelled manager conn.cancel_token)

-- What is left when the users of the ids are kicked.
abbrev pub AllKicked : ConnectionManager → List ℕ → ℕ × ConnectionManager → Type 0
AllKicked manager ids (total, after) =
    ((id : ℕ) → IsKicked manager ids after (lookup manager.connections id))
    × (total ≡ listed_of manager ids)
    × (after.connections ≡ manager.connections)
    × (after.user_connections ≡ manager.user_connections)

listed_of_kept :
    (m m' : ConnectionManager) (ids : List ℕ)
    → m'.user_connections ≡ m.user_connections
    → listed_of m' ids ≡ listed_of m ids
unfolding listed_of
listed_of_kept m m' [] e = refl
listed_of_kept m m' (u ∷ ids) e = rw (e, listed_of_kept m m' ids e) refl

kick_each_lem :
    (ids : List ℕ) (n : ℕ) (m : ConnectionManager)
    → IsConsistent m
    → let r = kick_each ids n m in
      ((id : ℕ) (conn : ActiveConnection)
        → lookup m.connections id ≡ some conn
        → is_cancelled r.1 conn.cancel_token
          ≡ (has conn.info.user_id ids || is_cancelled m conn.cancel_token))
      × (r.0 ≡ n + listed_of m ids)
      × (r.1.connections ≡ m.connections)
      × (r.1.user_connections ≡ m.user_connections)
unfolding kick_each has listed_of
kick_each_lem [] n m v = (λ id conn e. refl, omega arith, refl, refl)
kick_each_lem (u ∷ ids) n m v =
    let m' = (kick_user m u).1 in
    let (one, count, same, same_users) = kick_user_lem m v u in
    let (all, total, kept, kept_users) =
      kick_each_lem ids (n + (kick_user m u).0) m' (kick_user-IsConsistent m v u) in
    (
      λ id conn e. ground (arith, all id conn (ap (λ c. lookup c id) same ∙ e), one id conn e),
      omega (arith, total, count, listed_of_kept m m' ids same_users),
      kept ∙ same,
      kept_users ∙ same_users,
    )

-- In a consistent registry a change of the users cancels the connections of the removed users and of
-- those with another UUID, and of no other user; it counts what stands in their sets, and keeps the
-- maps.
pub on_user_diff-AllKicked :
    (manager : ConnectionManager) (diff : UserDiff)
    → IsConsistent manager
    → AllKicked manager (diff.removed_ids ++ diff.uuid_changed_ids) (on_user_diff manager diff)
unfolding on_user_diff kick_ids
on_user_diff-AllKicked manager diff v =
    let ids = diff.removed_ids ++ diff.uuid_changed_ids in
    let (all, total, kept, kept_users) = kick_each_lem ids 0 manager v in
    (
      λ id. seen (on_user_diff manager diff).1 id (all id) (lookup manager.connections id) refl,
      omega (arith, total),
      kept,
      kept_users,
    )
  where
    seen :
        (after : ConnectionManager) (id : ℕ)
        → ((conn : ActiveConnection)
            → lookup manager.connections id ≡ some conn
            → IsKicked manager (diff.removed_ids ++ diff.uuid_changed_ids) after (some conn))
        → (o : Option ActiveConnection) → lookup manager.connections id ≡ o
        → IsKicked manager (diff.removed_ids ++ diff.uuid_changed_ids) after o
    seen after id all none e = tt
    seen after id all (some conn) e = all conn e
