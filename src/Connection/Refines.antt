-- ===== src/Connection/Refines.antt =====
-- The registry of core/connection.rs keeps its promise.
use server_naive_rs.Common.{
  ℕ, ◌+◌, ◌^◌, ◌<◌, ◌≡◌, refl, sym, ap, ◌∙◌, arith, true, false, ◌==◌, ==_iff, List, [], ◌∷◌,
  Option, none, some, if◌then◌else◌, ◌||◌, Bool-cases, inl, inr,
}
use server_naive_rs.Common.Assoc.{lookup, put, has}
use server_naive_rs.Address.{SocketAddr}
use server_naive_rs.Connection.{
  ConnectionInfo, ActiveConnection, ConnectionManager, new, or_default, register, unregister,
  kick_user, cancel_all, is_cancelled, drop_conn,
}
use server_naive_rs.Connection.Agreement.{
  IsConsistent, new-IsConsistent, register_lem, unregister_lem,
}
use server_naive_rs.Connection.Kick.{one_holds, kick_loop-has, kick_user_lem, cancel_all_lem}
use server_naive_rs.Connection.Reach.{kick_user-IsConsistent, cancel_all-IsConsistent}
use server_naive_rs.Connection.Abstract.{
  Call, registers, unregisters, kicks, cancels_all, apply, run, Spec, nobody, each, spec_apply,
  spec_run, registrations, seen, Shows, IsMade,
}
use server_naive_rs.Connection.Tokens.{
  shows, All-without, All-weaker, one_holds_made, cancel_loop_made, seen_kept, unmade,
}

-- What holds of a registry and the promise along a history.
abbrev Keeps : ConnectionManager → Spec → Type 0
Keeps m s = IsConsistent m × IsMade m × Shows m s

module _ (m : ConnectionManager) (s : Spec) (v : IsConsistent m) (w : IsMade m)
    (h : Shows m s) where
  module _ (u : ℕ) (peer : SocketAddr) (now : ℕ) (room : m.next_conn_id + 1 < 2 ^ 64) where
    abbrev info : ConnectionInfo
    info = record { user_id = u; peer_addr = peer; connected_at = now }

    seen-register :
        (id : ℕ)
        → seen (register m u peer now).1 (lookup (register m u peer now).1.connections id) ≡ (
            if s.next_id == id
            then some (record { info = info; cancelled = false })
            else s.conns id)
    unfolding register is_cancelled
    seen-register id =
        let (v', before, here, others, kept) = register_lem m v u peer now room in
        elim (Bool-cases (s.next_id == id)) [
          | inl same ↦
              let i : id ≡ m.next_conn_id = sym ((==_iff s.next_id id).0 same) ∙ sym h.next in
              rw (same, i, here)
                (ap (λ c. some (record { info = info; cancelled = c })) (unmade m w))
          | inr apart ↦
              rw (apart, others id (ground (arith, apart, h.next)))
                (seen_kept m (register m u peer now).1 (lookup m.connections id) kept ∙ h.conns id)
        ]

    register-Keeps : Keeps (register m u peer now).1 (spec_apply (registers u peer now) s)
    unfolding register is_cancelled put
    register-Keeps =
        let (v', before, here, others, kept) = register_lem m v u peer now room in
        (
          v',
          record {
            used = (
              omega arith,
              All-weaker m.next_token _
                  (All-without m.next_token m.next_conn_id m.connections w.used),
            );
            cancelled_made = λ t c. omega (arith, w.cancelled_made t c);
          },
          shows (register m u peer now).1 (spec_apply (registers u peer now) s) v'
              (ground (arith, h.next, room)) seen-register,
        )

  seen-unregister :
      (id j : ℕ)
      → seen (unregister m id) (lookup (unregister m id).connections j)
        ≡ (if id == j then none else s.conns j)
  seen-unregister id j =
      let (v', gone, others, kept) = unregister_lem m v id in
      elim (Bool-cases (id == j)) [
        | inl same ↦ rw (same, sym ((==_iff id j).0 same), gone) refl
        | inr apart ↦
            rw (apart, others j (ground (arith, apart)))
              (seen_kept m (unregister m id) (lookup m.connections j) kept ∙ h.conns j)
      ]

  drop_conn_parts :
      (id : ℕ) (o : Option ActiveConnection)
      → (drop_conn m id o).next_conn_id ≡ m.next_conn_id × IsMade (drop_conn m id o)
  unfolding drop_conn is_cancelled
  drop_conn_parts id none = (refl, w)
  drop_conn_parts id (some conn) = (
    refl,
    record {
      used = All-without m.next_token id m.connections w.used;
      cancelled_made = w.cancelled_made;
    },
  )

  unregister-Keeps : (id : ℕ) → Keeps (unregister m id) (spec_apply (unregisters id) s)
  unfolding unregister
  unregister-Keeps id =
      let v' = (unregister_lem m v id).0 in
      let (next, made) = drop_conn_parts id (lookup m.connections id) in
      (
        v',
        made,
        shows (unregister m id) (spec_apply (unregisters id) s) v' (next ∙ h.next)
            (seen-unregister id),
      )

  seen-kick_user :
      (u id : ℕ)
      → seen (kick_user m u).1 (lookup m.connections id)
        ≡ each (λ e. record e { cancelled = e.info.user_id == u || e.cancelled }) (s.conns id)
  seen-kick_user u id = go (lookup m.connections id) refl (h.conns id)
    where
      go :
          (o : Option ActiveConnection)
          → lookup m.connections id ≡ o
          → seen m o ≡ s.conns id
          → seen (kick_user m u).1 o
            ≡ each (λ e. record e { cancelled = e.info.user_id == u || e.cancelled }) (s.conns id)
      go none e f = rw (← f) refl
      go (some conn) e f = rw (← f) (
          ap (λ c. some (record { info = conn.info; cancelled = c }))
            ((kick_user_lem m v u).0 id conn e))

  kick-Keeps : (u : ℕ) → Keeps (kick_user m u).1 (spec_apply (kicks u) s)
  unfolding kick_user is_cancelled
  kick-Keeps u =
      let v' = kick_user-IsConsistent m v u in
      (
        v',
        record {
          used = w.used;
          cancelled_made =
              λ t c. made t (rw (kick_loop-has m.connections ids 0 m.cancelled t) at c);
        },
        shows (kick_user m u).1 (spec_apply (kicks u) s) v' h.next (seen-kick_user u),
      )
    where
      ids : List ℕ
      ids = or_default (lookup m.user_connections u)

      made :
          (t : ℕ) → (one_holds m.connections ids t || has t m.cancelled) ≡ true → t < m.next_token
      made t c = elim (Bool-cases (one_holds m.connections ids t)) [
        | inl held ↦ one_holds_made m v ids t held
        | inr free ↦ w.cancelled_made t (rw free at c)
      ]

  seen-cancel_all :
      (id : ℕ)
      → seen (cancel_all m).1 (lookup m.connections id)
        ≡ each (λ e. record e { cancelled = true }) (s.conns id)
  seen-cancel_all id = go (lookup m.connections id) refl (h.conns id)
    where
      go :
          (o : Option ActiveConnection)
          → lookup m.connections id ≡ o
          → seen m o ≡ s.conns id
          → seen (cancel_all m).1 o ≡ each (λ e. record e { cancelled = true }) (s.conns id)
      go none e f = rw (← f) refl
      go (some conn) e f = rw (← f) (
          ap (λ c. some (record { info = conn.info; cancelled = c }))
            ((cancel_all_lem m).0 id conn e))

  cancel-Keeps : Keeps (cancel_all m).1 (spec_apply cancels_all s)
  unfolding cancel_all is_cancelled
  cancel-Keeps =
      let v' = cancel_all-IsConsistent m v in
      (
        v',
        record {
          used = w.used;
          cancelled_made =
              cancel_loop_made m.next_token m.connections 0 m.cancelled w.used w.cancelled_made;
        },
        shows (cancel_all m).1 (spec_apply cancels_all s) v' h.next seen-cancel_all,
      )

run-Keeps :
    (calls : List Call) (m : ConnectionManager) (s : Spec)
    → Keeps m s
    → s.next_id + registrations calls < 2 ^ 64
    → Keeps (run calls m) (spec_run calls s)
unfolding run apply
run-Keeps [] m s k room = k
run-Keeps (registers u peer now ∷ calls) m s (v, w, h) room =
    run-Keeps calls _ _ (register-Keeps m s v w h u peer now (omega (arith, h.next, room)))
      (omega (arith, room))
run-Keeps (unregisters id ∷ calls) m s (v, w, h) room =
    run-Keeps calls _ _ (unregister-Keeps m s v w h id) room
run-Keeps (kicks u ∷ calls) m s (v, w, h) room = run-Keeps calls _ _ (kick-Keeps m s v w h u) room
run-Keeps (cancels_all ∷ calls) m s (v, w, h) room =
    run-Keeps calls _ _ (cancel-Keeps m s v w h) room

new-Keeps : Keeps new nobody
unfolding new is_cancelled lookup has
new-Keeps = (
  new-IsConsistent,
  record { used = tt; cancelled_made = λ t c. cc },
  shows new nobody new-IsConsistent refl (λ id. refl),
)

-- After any calls of `register`, `unregister`, `kick_user` and `cancel_all`, with ids to spare, the
-- registry shows what the specification says: under each id the connection that was registered and
-- not unregistered, cancelled if since then its user was kicked or all were cancelled, and not else;
-- and each user's set is that of the user's connections.
pub run-Shows :
    (calls : List Call)
    → registrations calls + 1 < 2 ^ 64
    → Shows (run calls new) (spec_run calls nobody)
run-Shows calls room = (run-Keeps calls new nobody new-Keeps (omega (arith, room))).2
