-- ===== src/Shutdown/Tests.antt =====
-- Kicks, and a wait.
use server_naive_rs.Common.{ℕ, ◌+◌, ◌*◌, ◌≡◌, refl, arith, [], ◌∷◌, some, if◌then◌else◌, leb}
use server_naive_rs.Address.{SocketAddr, v4}
use server_naive_rs.Connection.{ConnectionManager, new, register}
use server_naive_rs.Connection.Reach.{Reachable, start, registered, Reachable-IsConsistent}
use server_naive_rs.Shutdown.{UserDiff, on_user_diff, Reading, drain, all_drained, timed_out, stop}
use server_naive_rs.Shutdown.Kicks.{AllKicked, on_user_diff-AllKicked}
use server_naive_rs.Shutdown.Draining.{Stopped, stop-Stopped}

abbrev peer : SocketAddr
peer = record { ip = v4 (record { a = 127; b = 0; c = 0; d = 1 }); port = 1234 }

-- A connection of user 1 and one of user 2.
abbrev two : ConnectionManager
two = (register (register new 1 peer 0).1 2 peer 5).1

two-Reachable : Reachable two
unfolding register new
two-Reachable = registered 2 peer 5 (registered 1 peer 0 start (omega arith)) (omega arith)

abbrev removed : UserDiff
removed = record { removed_ids = 2 ∷ 9 ∷ []; uuid_changed_ids = [] }

kicks : (on_user_diff two removed).0 ≡ 1
unfolding on_user_diff register new
kicks = refl

-- The connections go away in the third round, or never.
abbrev going : ℕ → Reading
going i = record { remaining = if leb 2 i then 0 else 2; now = 7 + i * 100 }

abbrev staying : ℕ → Reading
staying i = record { remaining = 2; now = 7 + i * 120 }

waits : (drain going 5007 51 0 ≡ some all_drained) × (drain staying 5007 51 0 ≡ some (timed_out 2))
unfolding drain
waits = (refl, refl)

on_user_diff-AllKicked_example : AllKicked two (2 ∷ 9 ∷ []) (on_user_diff two removed)
on_user_diff-AllKicked_example =
    on_user_diff-AllKicked two removed (Reachable-IsConsistent two-Reachable)

stop-Stopped_example : Stopped staying 7 two (stop staying 7 51 two)
stop-Stopped_example = stop-Stopped staying 7 two (λ i. omega arith) (omega arith)
