-- ===== src/Connection/Tests.antt =====
-- Runs of the registry, and its theorems at them.
use server_naive_rs.Common.{ℕ, ◌≡◌, refl, arith, some, List, [], ◌∷◌, true, false}
use server_naive_rs.Common.Assoc.{lookup, has}
use server_naive_rs.Address.{SocketAddr, v4}
use server_naive_rs.Connection.Agreement.{IsConsistent}
use server_naive_rs.Connection.Reach.{Reachable, start, registered, Reachable-IsConsistent}
use server_naive_rs.Connection.Steps.{
  active_connection, fetch_id, insert_connection, list_connection, cancel_found,
}
use server_naive_rs.Connection.Interleaved.{System, Step, Reach, init, present, member}
use server_naive_rs.Connection.Abstract.{
  Call, registers, unregisters, kicks, run, nobody, spec_run, seen, Shows,
}
use server_naive_rs.Connection.Refines.{run-Shows}
use server_naive_rs.Connection.Settled.{Agree, Reach-Agree, Reach-kicked}
use server_naive_rs.Connection.{
  ActiveConnection, is_cancelled, ConnectionManager, or_default, new, register, unregister,
  kick_user, cancel_all, connection_count, user_count,
}

abbrev peer : SocketAddr
peer = record { ip = v4 (record { a = 127; b = 0; c = 0; d = 1 }); port = 1234 }

abbrev one : ConnectionManager
one = (register new 1 peer 0).1

abbrev two : ConnectionManager
two = (register one 1 peer 5).1

-- Three connections of two users.
abbrev three : ConnectionManager
three = (register two 2 peer 9).1

three-Reachable : Reachable three
unfolding register new
three-Reachable =
    registered 2 peer 9
      (registered 1 peer 5 (registered 1 peer 0 start (omega arith)) (omega arith)) (omega arith)

three-IsConsistent : IsConsistent three
three-IsConsistent = Reachable-IsConsistent three-Reachable

counts :
    (connection_count three ≡ 3) × (user_count three ≡ 2) × (user_count (unregister three 3) ≡ 1)
unfolding connection_count user_count register unregister new
counts = (refl, refl, refl)

kicked_counts : ((kick_user three 1).0 ≡ 2) × ((cancel_all three).0 ≡ 3)
unfolding kick_user cancel_all register new
kicked_counts = (refl, refl)

abbrev Run : Type 0
Run = (s : System) × Reach s

abbrev then : (r : Run) {t : System} → Step r.0 t → Run
then r {t} step = (t, Reach.later r.1 step)

abbrev second : ActiveConnection
second = record {
  info = record { user_id = 1; peer_addr = peer; connected_at = 5 };
  cancel_token = 1;
}

-- Two connections of user 1: the first is registered, the second stands in `connections` alone.
abbrev half_way : Run
unfolding new fetch_id insert_connection list_connection cancel_found lookup active_connection
half_way =
    let r1 = then (init, Reach.start) (Step.fetch 1 peer 0 (omega arith)) in
    let r2 = then r1 (Step.insert 1 (active_connection new 1 peer 0) refl) in
    let r3 = then r2 (Step.list 1 (active_connection new 1 peer 0) refl tt) in
    let r4 = then r3 (Step.fetch 1 peer 5 (omega arith)) in then r4 (Step.insert 2 second refl)

-- The user is kicked, and the set that holds the first connection alone is gone through.
abbrev kicked_one : Run
unfolding new fetch_id insert_connection list_connection cancel_found lookup active_connection
kicked_one = let r = then half_way (Step.kick 1 refl) in then r (Step.visit 1 1 [] refl)

-- The second connection joins the set: it was missed, and no call is half way.
abbrev missed : Run
unfolding new fetch_id insert_connection list_connection cancel_found lookup active_connection
missed = let r = then kicked_one (Step.kicked 1 refl) in then r (Step.list 2 second refl tt)

missed_stays :
    (is_cancelled missed.0.registry 0 ≡ true)
    × (is_cancelled missed.0.registry 1 ≡ false)
    × (connection_count missed.0.registry ≡ 2)
unfolding is_cancelled connection_count new fetch_id insert_connection list_connection cancel_found
    lookup active_connection
missed_stays = (refl, refl, refl)

Reach-Agree_example :
    ((id : ℕ) → lookup missed.0.registry.connections id ≡ present (missed.0.phase id))
    × ((id u : ℕ)
        → has id (or_default (lookup missed.0.registry.user_connections u))
          ≡ member (missed.0.phase id) u)
    × Agree missed.0
Reach-Agree_example = Reach-Agree missed.1

Reach-kicked_example : is_cancelled kicked_one.0.registry 0 ≡ true
unfolding new fetch_id insert_connection list_connection cancel_found lookup active_connection
Reach-kicked_example = Reach-kicked 1 kicked_one.1 refl 1 (active_connection new 1 peer 0) refl refl

-- A user with two connections is kicked, one of which leaves; a third is registered behind that.
abbrev history : List Call
history =
    registers 1 peer 0 ∷ registers 1 peer 5 ∷ kicks 1 ∷ unregisters 1 ∷ registers 1 peer 9 ∷ []

cancelled_before :
    (seen (run history new) (lookup (run history new).connections 2)
      ≡ some (record {
        info = record { user_id = 1; peer_addr = peer; connected_at = 5 };
        cancelled = true;
      }))
    × (seen (run history new) (lookup (run history new).connections 3)
        ≡ some (record {
          info = record { user_id = 1; peer_addr = peer; connected_at = 9 };
          cancelled = false;
        }))
unfolding run new is_cancelled
cancelled_before = (refl, refl)

run-Shows_example : Shows (run history new) (spec_run history nobody)
run-Shows_example = run-Shows history (omega arith)
