-- ===== src/Connection/Abstract.antt =====
-- What the registry of core/connection.rs promises, without tokens, sets and the order of maps: for
-- each id the connection, if it is there, and whether it was cancelled.
use server_naive_rs.Common.{
  ℕ, ◌+◌, ◌<◌, ◌≡◌, Bool, true, false, ◌==◌, List, [], ◌∷◌, All, Option, none, some, if◌then◌else◌,
  ◌||◌,
}
use server_naive_rs.Common.Assoc.{lookup, has}
use server_naive_rs.Address.{SocketAddr}
use server_naive_rs.Connection.{
  ConnectionInfo, ActiveConnection, ConnectionManager, or_default, register, unregister, kick_user,
  cancel_all, is_cancelled,
}

pub data Call : Type 0 where
  registers : (user_id : ℕ) → SocketAddr → (now : ℕ) → Call
  unregisters : (conn_id : ℕ) → Call
  kicks : (user_id : ℕ) → Call
  cancels_all : Call

unfoldable pub apply : Call → ConnectionManager → ConnectionManager
unfolding register unregister kick_user cancel_all
apply (registers user_id peer_addr now) m = (register m user_id peer_addr now).1
apply (unregisters conn_id) m = unregister m conn_id
apply (kicks user_id) m = (kick_user m user_id).1
apply cancels_all m = (cancel_all m).1

-- The calls in their order.
unfoldable pub run : List Call → ConnectionManager → ConnectionManager
unfolding apply
run [] m = m
run (c ∷ calls) m = run calls (apply c m)

-- A connection as its task sees it.
pub record Entry : Type 0 where
  pub info : ConnectionInfo
  pub cancelled : Bool

pub record Spec : Type 0 where
  pub next_id : ℕ
  pub conns : ℕ → Option Entry

abbrev pub nobody : Spec
nobody = record { next_id = 1; conns = λ id. none }

abbrev pub each : (Entry → Entry) → Option Entry → Option Entry
each f none = none
each f (some e) = some (f e)

abbrev pub spec_apply : Call → Spec → Spec
spec_apply (registers user_id peer_addr now) s = record {
  next_id = s.next_id + 1;
  conns = λ id.
      if s.next_id == id
      then some (record {
        info = record { user_id = user_id; peer_addr = peer_addr; connected_at = now };
        cancelled = false;
      })
      else s.conns id;
}
spec_apply (unregisters conn_id) s = record s {
  conns = λ id. if conn_id == id then none else s.conns id;
}
spec_apply (kicks user_id) s = record s {
  conns = λ id.
      each (λ e. record e { cancelled = e.info.user_id == user_id || e.cancelled }) (s.conns id);
}
spec_apply cancels_all s = record s {
  conns = λ id. each (λ e. record e { cancelled = true }) (s.conns id);
}

abbrev pub spec_run : List Call → Spec → Spec
spec_run [] s = s
spec_run (c ∷ calls) s = spec_run calls (spec_apply c s)

abbrev pub registrations : List Call → ℕ
registrations [] = 0
registrations (registers u peer now ∷ calls) = registrations calls + 1
registrations (unregisters id ∷ calls) = registrations calls
registrations (kicks u ∷ calls) = registrations calls
registrations (cancels_all ∷ calls) = registrations calls

abbrev pub seen : ConnectionManager → Option ActiveConnection → Option Entry
seen m none = none
seen m (some conn) =
    some (record { info = conn.info; cancelled = is_cancelled m conn.cancel_token })

abbrev pub owned : Option Entry → ℕ → Bool
owned none u = false
owned (some e) u = e.info.user_id == u

-- The registry shows what the specification says: each connection with its cancellation, and each
-- user's set.
pub record Shows (m : ConnectionManager) (s : Spec) : Type 0 where
  pub next : m.next_conn_id ≡ s.next_id
  pub conns : (id : ℕ) → seen m (lookup m.connections id) ≡ s.conns id
  pub sets : (id u : ℕ) → has id (or_default (lookup m.user_connections u)) ≡ owned (s.conns id) u

-- All tokens that connections have, or that were cancelled, have been made.
pub record IsMade (m : ConnectionManager) : Type 0 where
  pub used : All (λ e. e.1.cancel_token < m.next_token) m.connections
  pub cancelled_made : (t : ℕ) → is_cancelled m t ≡ true → t < m.next_token
