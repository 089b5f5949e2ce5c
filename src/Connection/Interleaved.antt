-- ===== src/Connection/Interleaved.antt =====
-- The registry of core/connection.rs under tasks that interleave: one task for each connection,
-- that registers it and later unregisters it (`handler.rs`), a task that kicks users
-- (`on_user_diff` of main.rs), and one that cancels all. A step is one access to one map.
use server_naive_rs.Common.{
  ℕ, ◌+◌, ◌^◌, ◌<◌, ◌≡◌, ◌≢◌, Bool, true, false, ◌==◌, List, [], ◌∷◌, Option, none, some,
  if◌then◌else◌,
}
use server_naive_rs.Common.Assoc.{lookup}
use server_naive_rs.Address.{SocketAddr}
use server_naive_rs.Connection.{ActiveConnection, ConnectionManager, new, or_default}
use server_naive_rs.Connection.Steps.{
  fetch_id, insert_connection, list_connection, remove_connection, unlist_connection, cancel_found,
  active_connection,
}

-- How far the task of a connection id is.
pub data Phase : Type 0 where
  unused : Phase
  numbered : ActiveConnection → Phase
  inserted : ActiveConnection → Phase
  listed : ActiveConnection → Phase
  removed : ActiveConnection → Phase
  gone : Phase

-- How far `kick_user` is: it holds the entry of the user, and has these connections to look up.
pub data Kick : Type 0 where
  idle : Kick
  kicking : (user_id : ℕ) → (conn_ids : List ℕ) → Kick

pub record System : Type 0 where
  pub registry : ConnectionManager
  pub phase : ℕ → Phase
  pub kick : Kick

abbrev pub update : (ℕ → Phase) → ℕ → Phase → ℕ → Phase
update f i p j = if i == j then p else f j

-- Whether the entry of the user can be written: `get` holds it for reading during the loop.
abbrev pub IsFree : Kick → ℕ → Type 0
IsFree idle user_id = Unit
IsFree (kicking u conn_ids) user_id = u ≢ user_id

pub data Step (s : System) : System → Type 0 where
  fetch :
      (user_id : ℕ) (peer_addr : SocketAddr) (now : ℕ)
      → s.registry.next_conn_id + 1 < 2 ^ 64
      → Step s (record s {
        registry = fetch_id s.registry;
        phase =
            update s.phase s.registry.next_conn_id
              (numbered (active_connection s.registry user_id peer_addr now));
      })
  insert :
      (id : ℕ) (conn : ActiveConnection)
      → s.phase id ≡ numbered conn
      → Step s (record s {
        registry = insert_connection id conn s.registry;
        phase = update s.phase id (inserted conn);
      })
  list :
      (id : ℕ) (conn : ActiveConnection)
      → s.phase id ≡ inserted conn
      → IsFree s.kick conn.info.user_id
      → Step s (record s {
        registry = list_connection id conn.info.user_id s.registry;
        phase = update s.phase id (listed conn);
      })
  remove :
      (id : ℕ) (conn : ActiveConnection)
      → s.phase id ≡ listed conn
      → Step s (record s {
        registry = remove_connection id s.registry;
        phase = update s.phase id (removed conn);
      })
  unlist :
      (id : ℕ) (conn : ActiveConnection)
      → s.phase id ≡ removed conn
      → IsFree s.kick conn.info.user_id
      → Step s (record s {
        registry = unlist_connection id conn.info.user_id s.registry;
        phase = update s.phase id gone;
      })
  kick :
      (user_id : ℕ)
      → s.kick ≡ idle
      → Step s (record s {
        kick = kicking user_id (or_default (lookup s.registry.user_connections user_id));
      })
  visit :
      (user_id id : ℕ) (ids : List ℕ)
      → s.kick ≡ kicking user_id (id ∷ ids)
      → Step s (record s {
        registry = cancel_found (lookup s.registry.connections id) s.registry;
        kick = kicking user_id ids;
      })
  kicked : (user_id : ℕ) → s.kick ≡ kicking user_id [] → Step s (record s { kick = idle })
  -- One entry of the loop of `cancel_all`.
  cancel :
      (id : ℕ)
      → Step s (record s { registry = cancel_found (lookup s.registry.connections id) s.registry })

abbrev pub init : System
init = record { registry = new; phase = λ id. unused; kick = idle }

pub data Reach : System → Type 0 where
  start : Reach init
  later : {s t : System} → Reach s → Step s t → Reach t

-- The connection of a phase, while it stands in `connections`.
abbrev pub present : Phase → Option ActiveConnection
present (inserted conn) = some conn
present (listed conn) = some conn
present _ = none

-- Whether the set of the user has a connection of the phase.
abbrev pub member : Phase → ℕ → Bool
member (listed conn) user_id = conn.info.user_id == user_id
member (removed conn) user_id = conn.info.user_id == user_id
member _ user_id = false

-- Whether no call of `register` or `unregister` is half way.
abbrev pub settled : Phase → Bool
settled unused = true
settled (listed conn) = true
settled gone = true
settled _ = false
