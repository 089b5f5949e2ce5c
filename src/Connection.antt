-- ===== src/Connection.antt =====
-- core/connection.rs: the registry of the connections, by which they are cancelled. The two maps
-- are association lists. A cancellation token and its clones are one name, and the names that were
-- cancelled are a part of the state.
pub mod Abstract
pub mod Agreement
pub mod Kick
pub mod Visits
pub mod InStep
pub mod Interleaved
pub mod Reach
pub mod Tokens
pub mod Refines
pub mod Settled
pub mod Steps
mod Tests
use server_naive_rs.Common.{
  ℕ, ◌+◌, ◌%◌, ◌^◌, Bool, List, [], ◌∷◌, length, Option, none, some, if◌then◌else◌,
}
use server_naive_rs.Common.Assoc.{lookup, put, without, has, with_member, without_member}
use server_naive_rs.Address.{SocketAddr}

-- `connected_at` is the clock's reading.
pub record ConnectionInfo : Type 0 where
  pub user_id : ℕ
  pub peer_addr : SocketAddr
  pub connected_at : ℕ

pub record ActiveConnection : Type 0 where
  pub info : ConnectionInfo
  pub cancel_token : ℕ

-- `next_token` names the next token that is made, and `cancelled` are those that were cancelled.
pub record ConnectionManager : Type 0 where
  pub next_conn_id : ℕ
  pub connections : List (ℕ × ActiveConnection)
  pub user_connections : List (ℕ × List ℕ)
  pub next_token : ℕ
  pub cancelled : List ℕ

unfoldable pub new : ConnectionManager
new = record {
  next_conn_id = 1;
  connections = [];
  user_connections = [];
  next_token = 0;
  cancelled = [];
}

-- `entry(user_id).or_default()`.
unfoldable pub or_default : Option (List ℕ) → List ℕ
or_default none = []
or_default (some ids) = ids

unfoldable pub register : ConnectionManager → ℕ → SocketAddr → ℕ → (ℕ × ℕ) × ConnectionManager
unfolding put with_member or_default
register self user_id peer_addr now =
    let conn_id = self.next_conn_id in
    let cancel_token = self.next_token in
    let info : ConnectionInfo = record {
      user_id = user_id;
      peer_addr = peer_addr;
      connected_at = now;
    } in
    (
      (conn_id, cancel_token),
      record self {
        next_conn_id = (conn_id + 1) % 2 ^ 64;
        connections =
            put conn_id (record { info = info; cancel_token = cancel_token }) self.connections;
        user_connections =
            put user_id (with_member conn_id (or_default (lookup self.user_connections user_id)))
              self.user_connections;
        next_token = cancel_token + 1;
      },
    )

-- What `remove_if_mut` makes of a user's entry, whose set without the connection is the list.
unfoldable pub put_back : ℕ → List ℕ → List (ℕ × List ℕ) → List (ℕ × List ℕ)
unfolding put without
put_back user_id [] users = without user_id users
put_back user_id (id ∷ ids) users = put user_id (id ∷ ids) users

unfoldable pub leave : ℕ → ℕ → Option (List ℕ) → List (ℕ × List ℕ) → List (ℕ × List ℕ)
unfolding put_back without_member
leave conn_id user_id none users = users
leave conn_id user_id (some ids) users = put_back user_id (without_member conn_id ids) users

unfoldable pub drop_conn : ConnectionManager → ℕ → Option ActiveConnection → ConnectionManager
unfolding leave without
drop_conn self conn_id none = self
drop_conn self conn_id (some conn) =
    let user_id = conn.info.user_id in
    record self {
      connections = without conn_id self.connections;
      user_connections =
          leave conn_id user_id (lookup self.user_connections user_id) self.user_connections;
    }

unfoldable pub unregister : ConnectionManager → ℕ → ConnectionManager
unfolding drop_conn lookup
unregister self conn_id = drop_conn self conn_id (lookup self.connections conn_id)

-- The loop of `kick_user`: the number of those kicked so far, and the tokens cancelled.
unfoldable pub kick_loop : List (ℕ × ActiveConnection) → List ℕ → ℕ → List ℕ → ℕ × List ℕ
unfolding lookup
kick_loop connections [] kicked cancelled = (kicked, cancelled)
kick_loop connections (conn_id ∷ ids) kicked cancelled = elim (lookup connections conn_id) [
  | none ↦ kick_loop connections ids kicked cancelled
  | some conn ↦ kick_loop connections ids (kicked + 1) (conn.cancel_token ∷ cancelled)
]

unfoldable pub kick_user : ConnectionManager → ℕ → ℕ × ConnectionManager
unfolding kick_loop or_default
kick_user self user_id =
    let (kicked, cancelled) =
      kick_loop self.connections (or_default (lookup self.user_connections user_id)) 0
        self.cancelled in
    (kicked, record self { cancelled = cancelled })

unfoldable pub cancel_loop : List (ℕ × ActiveConnection) → ℕ → List ℕ → ℕ × List ℕ
cancel_loop [] n cancelled = (n, cancelled)
cancel_loop ((conn_id, conn) ∷ rest) n cancelled =
    cancel_loop rest (n + 1) (conn.cancel_token ∷ cancelled)

unfoldable pub cancel_all : ConnectionManager → ℕ × ConnectionManager
unfolding cancel_loop
cancel_all self =
    let (n, cancelled) = cancel_loop self.connections 0 self.cancelled in
    (n, record self { cancelled = cancelled })

unfoldable pub connection_count : ConnectionManager → ℕ
connection_count self = length self.connections

unfoldable pub user_count : ConnectionManager → ℕ
user_count self = length self.user_connections

-- `cancel_token.is_cancelled()`.
unfoldable pub is_cancelled : ConnectionManager → ℕ → Bool
unfolding has
is_cancelled self token = has token self.cancelled
