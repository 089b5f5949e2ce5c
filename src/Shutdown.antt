-- ===== src/Shutdown.antt =====
-- main.rs behind the start: the kicks of users that the panel removed or changed, and the end of
-- `main`, which cancels all connections and waits for them. The other tasks take connections out of
-- the registry in the meantime: what the wait reads of it, and of the clock, is a parameter.
pub mod Kicks
pub mod Draining
mod Tests
use server_naive_rs.Common.{
  ℕ, zero, suc, ◌+◌, Bool, true, false, ◌==◌, leb, ltb, List, [], ◌∷◌, ◌++◌, Option, none, some,
  if◌then◌else◌,
}
use server_naive_rs.Connection.{ConnectionManager, kick_user, cancel_all}

-- `UserDiff` of panel-core, as far as it is read.
pub record UserDiff : Type 0 where
  pub removed_ids : List ℕ
  pub uuid_changed_ids : List ℕ

unfoldable pub kick_ids : UserDiff → List ℕ
kick_ids diff = diff.removed_ids ++ diff.uuid_changed_ids

-- The loop, with the number of the connections kicked.
unfoldable pub kick_each : List ℕ → ℕ → ConnectionManager → ℕ × ConnectionManager
unfolding kick_user
kick_each [] total_kicked manager = (total_kicked, manager)
kick_each (uid ∷ ids) total_kicked manager =
    let (kicked, manager') = kick_user manager uid in kick_each ids (total_kicked + kicked) manager'

unfoldable pub on_user_diff : ConnectionManager → UserDiff → ℕ × ConnectionManager
unfolding kick_ids kick_each
on_user_diff manager diff = kick_each (kick_ids diff) 0 manager

-- The end of the wait: all are gone, or so many are left behind the deadline.
pub data Drained : Type 0 where
  all_drained : Drained
  timed_out : ℕ → Drained

-- What a round of the wait reads: `connection_count` and the clock, in milliseconds.
pub record Reading : Type 0 where
  pub remaining : ℕ
  pub now : ℕ

-- The loop, from its round `i` on; `none` means that the fuel ran out.
unfoldable pub drain : (ℕ → Reading) → ℕ → ℕ → ℕ → Option Drained
drain readings deadline zero i = none
drain readings deadline (suc fuel) i =
    let rest = drain readings deadline fuel (i + 1) in
    let r = readings i in
    if r.remaining == 0
    then some all_drained
    else if leb deadline r.now
    then some (timed_out r.remaining)
    else rest

-- What `main` does when the server has stopped, at a time: the count of the connections cancelled, the
-- registry behind that, and the wait, if any is needed.
unfoldable pub stop :
    (ℕ → Reading) → ℕ → ℕ → ConnectionManager → ℕ × ConnectionManager × Option (Option Drained)
unfolding cancel_all drain
stop readings started fuel manager =
    let (cancelled, manager') = cancel_all manager in
    (
      cancelled,
      manager',
      if ltb 0 cancelled then some (drain readings (started + 5000) fuel 0) else none,
    )
