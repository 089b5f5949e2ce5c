-- ===== src/Connection/InStep.antt =====
-- What holds of the registry of core/connection.rs in every interleaving.
use server_naive_rs.Common.{
  ℕ, ◌+◌, ◌^◌, ◌≤◌, ◌<◌, ◌≡◌, ◌≢◌, ◌⊎◌, refl, sym, ap, ◌∙◌, subst, arith, true, false, ◌==◌, ==_iff,
  List, [], ◌∷◌, Option, none, some, if◌then◌else◌, ◌||◌, Bool-cases, inl, inr,
}
use server_naive_rs.Common.Assoc.{
  lookup, put, has, with_member, lookup-put, lookup-without, has-with_member,
}
use server_naive_rs.Connection.{ActiveConnection, new, or_default}
use server_naive_rs.Connection.Kick.{token_of}
use server_naive_rs.Connection.Agreement.{has-left, left_inhabited, members_nonempty}
use server_naive_rs.Connection.Steps.{
  fetch_id, insert_connection, list_connection, remove_connection, unlist_connection, cancel_found,
  active_connection,
}
use server_naive_rs.Connection.Interleaved.{
  unused, numbered, inserted, listed, removed, gone, kicking, System, update, IsFree, Step, init,
  Reach, present, member,
}
use server_naive_rs.Connection.Visits.{user_of, Visited, keep-Visited, cancel-Visited}

-- Both maps stand as the phases say, no user has an empty set, and the ids to come are unused.
pub record IsInStep (s : System) : Type 0 where
  pub conns : (id : ℕ) → lookup s.registry.connections id ≡ present (s.phase id)
  pub sets :
      (id u : ℕ)
      → has id (or_default (lookup s.registry.user_connections u)) ≡ member (s.phase id) u
  pub inhabited : (u : ℕ) → lookup s.registry.user_connections u ≢ some []
  pub future : (id : ℕ) → s.registry.next_conn_id ≤ id → s.phase id ≡ unused

pub init-IsInStep : IsInStep init
unfolding new lookup or_default has
init-IsInStep = record {
  conns = λ id. refl;
  sets = λ id u. refl;
  inhabited = λ u e. cc;
  future = λ id h. refl;
}

module _ (s : System) (v : IsInStep s) where
  abbrev users : List (ℕ × List ℕ)
  users = s.registry.user_connections

  fetch-IsInStep :
      (conn : ActiveConnection)
      → s.registry.next_conn_id + 1 < 2 ^ 64
      → IsInStep (record s {
        registry = fetch_id s.registry;
        phase = update s.phase s.registry.next_conn_id (numbered conn);
      })
  unfolding fetch_id
  fetch-IsInStep conn room = record {
    conns = λ j. ground (arith, v.conns j, here, ==_iff id j);
    sets = λ j u. ground (arith, v.sets j u, here, ==_iff id j);
    inhabited = v.inhabited;
    future = λ j h. ground (arith, v.future j, h, room, ==_iff id j);
  }
    where
      id : ℕ
      id = s.registry.next_conn_id

      here : s.phase id ≡ unused
      here = v.future id (omega arith)

  insert-IsInStep :
      (id : ℕ) (conn : ActiveConnection)
      → s.phase id ≡ numbered conn
      → IsInStep (record s {
        registry = insert_connection id conn s.registry;
        phase = update s.phase id (inserted conn);
      })
  unfolding insert_connection
  insert-IsInStep id conn e = record {
    conns = λ j. ground (arith, lookup-put id conn s.registry.connections j, v.conns j);
    sets = λ j u. ground (arith, v.sets j u, e, ==_iff id j);
    inhabited = v.inhabited;
    future = λ j h. ground (arith, v.future j h, e, ==_iff id j);
  }

  list-IsInStep :
      (id : ℕ) (conn : ActiveConnection)
      → s.phase id ≡ inserted conn
      → IsInStep (record s {
        registry = list_connection id conn.info.user_id s.registry;
        phase = update s.phase id (listed conn);
      })
  unfolding list_connection or_default
  list-IsInStep id conn e = record {
    conns = λ j. ground (arith, v.conns j, e, ==_iff id j);
    sets = λ j u. ground (
      arith,
      users_after u,
      has-with_member id (or_default (lookup users w)) j,
      v.sets j u,
      e,
      ==_iff id j,
      ==_iff w u,
    );
    inhabited = λ u f.
        ground
          (arith, users_after u, v.inhabited u, members_nonempty id (or_default (lookup users w)));
    future = λ j h. ground (arith, v.future j h, e, ==_iff id j);
  }
    where
      w : ℕ
      w = conn.info.user_id

      users_after :
          (u : ℕ)
          → lookup (put w (with_member id (or_default (lookup users w))) users) u ≡ (
              if w == u
              then some (with_member id (or_default (lookup users w)))
              else lookup users u)
      users_after u = lookup-put w _ users u

  remove-IsInStep :
      (id : ℕ) (conn : ActiveConnection)
      → s.phase id ≡ listed conn
      → IsInStep (record s {
        registry = remove_connection id s.registry;
        phase = update s.phase id (removed conn);
      })
  unfolding remove_connection
  remove-IsInStep id conn e = record {
    conns = λ j. ground (arith, lookup-without id s.registry.connections j, v.conns j);
    sets = λ j u. ground (arith, v.sets j u, e, ==_iff id j);
    inhabited = v.inhabited;
    future = λ j h. ground (arith, v.future j h, e, ==_iff id j);
  }

  unlist-IsInStep :
      (id : ℕ) (conn : ActiveConnection)
      → s.phase id ≡ removed conn
      → IsInStep (record s {
        registry = unlist_connection id conn.info.user_id s.registry;
        phase = update s.phase id gone;
      })
  unfolding unlist_connection
  unlist-IsInStep id conn e = record {
    conns = λ j. ground (arith, v.conns j, e, ==_iff id j);
    sets = λ j u. ground (
      arith,
      has-left id conn.info.user_id users j u,
      v.sets j u,
      e,
      ==_iff id j,
      ==_iff conn.info.user_id u,
    );
    inhabited = left_inhabited id conn.info.user_id users v.inhabited;
    future = λ j h. ground (arith, v.future j h, e, ==_iff id j);
  }

  cancel_found-IsInStep :
      (o : Option ActiveConnection) → IsInStep (record s { registry = cancel_found o s.registry })
  unfolding cancel_found
  cancel_found-IsInStep none = v
  cancel_found-IsInStep (some conn) = record {
    conns = v.conns;
    sets = v.sets;
    inhabited = v.inhabited;
    future = v.future;
  }

  -- A kick starts with the whole set of the user to look up.
  kick-Visited : (u : ℕ) → Visited s (kicking u (or_default (lookup s.registry.user_connections u)))
  kick-Visited u id conn e same h = ground (arith, v.sets id u, e, same, h)

  -- The access of a kick to the next connection.
  visit-Visited :
      (u id : ℕ) (ids : List ℕ) (o : Option ActiveConnection)
      → lookup s.registry.connections id ≡ o
      → Visited s (kicking u (id ∷ ids))
      → Visited (record s { registry = cancel_found o s.registry }) (kicking u ids)
  unfolding cancel_found has
  visit-Visited u id ids none f before j conn e same h =
      ground (arith, before j conn e same, v.conns j, e, f, h, ==_iff id j)
  visit-Visited u id ids (some c) f before j conn e same h = go (Bool-cases (id == j))
    where
      go :
          ((id == j) ≡ true) ⊎ ((id == j) ≡ false)
          → (c.cancel_token == conn.cancel_token || has conn.cancel_token s.registry.cancelled)
            ≡ true
      go (inl here) = ground (arith, found here)
        where
          found : (id == j) ≡ true → c.cancel_token ≡ conn.cancel_token
          found q = ap token_of (
              sym f
              ∙ ap (lookup s.registry.connections) ((==_iff id j).0 q)
              ∙ v.conns j
              ∙ ap present e)
      go (inr apart) = ground (arith, before j conn e same (ground (arith, apart, h)))

-- The invariant of every interleaving.
abbrev pub Good : System → Type 0
Good s = IsInStep s × Visited s s.kick

Step-Good : {s t : System} → Good s → Step s t → Good t
unfolding fetch_id insert_connection list_connection remove_connection unlist_connection
Step-Good {s} (v, before) (Step.fetch u peer now room) = (
  fetch-IsInStep s v (active_connection s.registry u peer now) room,
  keep-Visited s s.kick _ _ (fetch_id s.registry) refl (λ c e. cc) before,
)
Step-Good {s} (v, before) (Step.insert id conn e) = (
  insert-IsInStep s v id conn e,
  keep-Visited s s.kick _ _ (insert_connection id conn s.registry) refl (λ c e. cc) before,
)
Step-Good {s} (v, before) (Step.list id conn e free) = (
  list-IsInStep s v id conn e,
  keep-Visited s s.kick _ _ (list_connection id conn.info.user_id s.registry) refl
      (λ c q. subst (λ o. IsFree s.kick (user_of o)) (ap present q) free) before,
)
Step-Good {s} (v, before) (Step.remove id conn e) = (
  remove-IsInStep s v id conn e,
  keep-Visited s s.kick _ _ (remove_connection id s.registry) refl (λ c e. cc) before,
)
Step-Good {s} (v, before) (Step.unlist id conn e free) = (
  unlist-IsInStep s v id conn e,
  keep-Visited s s.kick _ _ (unlist_connection id conn.info.user_id s.registry) refl (λ c e. cc)
      before,
)
Step-Good {s} (v, before) (Step.kick u e) = (
  record { conns = v.conns; sets = v.sets; inhabited = v.inhabited; future = v.future },
  kick-Visited s v u,
)
Step-Good {s} (v, before) (Step.visit u id ids e) =
    let w = cancel_found-IsInStep s v (lookup s.registry.connections id) in
    (
      record { conns = w.conns; sets = w.sets; inhabited = w.inhabited; future = w.future },
      visit-Visited s v u id ids (lookup s.registry.connections id) refl (rw e at before),
    )
Step-Good {s} (v, before) (Step.kicked u e) =
    (record { conns = v.conns; sets = v.sets; inhabited = v.inhabited; future = v.future }, tt)
Step-Good {s} (v, before) (Step.cancel id) = (
  cancel_found-IsInStep s v (lookup s.registry.connections id),
  cancel-Visited s s.kick (lookup s.registry.connections id) before,
)

pub Reach-Good : {s : System} → Reach s → Good s
Reach-Good Reach.start = (init-IsInStep, tt)
Reach-Good (Reach.later r step) = Step-Good (Reach-Good r) step
