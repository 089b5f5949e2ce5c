-- ===== src/Connection/Steps.antt =====
-- The single accesses to the two maps of the registry of which `register` and `unregister` of
-- core/connection.rs are active_connection. Tasks interleave between them: each locks one map only.
use server_naive_rs.Common.{ℕ, ◌+◌, ◌%◌, ◌^◌, ◌≡◌, refl, ◌∷◌, Option, none, some}
use server_naive_rs.Common.Assoc.{lookup, put, without, with_member}
use server_naive_rs.Address.{SocketAddr}
use server_naive_rs.Connection.{
  ActiveConnection, ConnectionManager, or_default, register, leave, drop_conn, unregister,
}

-- `next_conn_id.fetch_add(1)` and `CancellationToken::new()`.
unfoldable pub fetch_id : ConnectionManager → ConnectionManager
fetch_id self = record self {
  next_conn_id = (self.next_conn_id + 1) % 2 ^ 64;
  next_token = self.next_token + 1;
}

-- `connections.insert(conn_id, conn)`.
unfoldable pub insert_connection : ℕ → ActiveConnection → ConnectionManager → ConnectionManager
unfolding put
insert_connection conn_id conn self = record self {
  connections = put conn_id conn self.connections;
}

-- `user_connections.entry(user_id).or_default().insert(conn_id)`.
unfoldable pub list_connection : ℕ → ℕ → ConnectionManager → ConnectionManager
unfolding put with_member or_default
list_connection conn_id user_id self = record self {
  user_connections =
      put user_id (with_member conn_id (or_default (lookup self.user_connections user_id)))
        self.user_connections;
}

-- `connections.remove(&conn_id)`.
unfoldable pub remove_connection : ℕ → ConnectionManager → ConnectionManager
unfolding without
remove_connection conn_id self = record self { connections = without conn_id self.connections }

-- `user_connections.remove_if_mut(&user_id, ..)`.
unfoldable pub unlist_connection : ℕ → ℕ → ConnectionManager → ConnectionManager
unfolding leave
unlist_connection conn_id user_id self = record self {
  user_connections =
      leave conn_id user_id (lookup self.user_connections user_id) self.user_connections;
}

-- `conn.cancel_token.cancel()`, of the connection found, if one is.
unfoldable pub cancel_found : Option ActiveConnection → ConnectionManager → ConnectionManager
cancel_found none self = self
cancel_found (some conn) self = record self { cancelled = conn.cancel_token ∷ self.cancelled }

-- The connection that `register` makes.
unfoldable pub active_connection : ConnectionManager → ℕ → SocketAddr → ℕ → ActiveConnection
active_connection self user_id peer_addr now = record {
  info = record { user_id = user_id; peer_addr = peer_addr; connected_at = now };
  cancel_token = self.next_token;
}

-- Undisturbed, the three accesses make `register`.
pub register-steps :
    (self : ConnectionManager) (user_id : ℕ) (peer_addr : SocketAddr) (now : ℕ)
    → (register self user_id peer_addr now).1
      ≡ list_connection self.next_conn_id user_id (
          insert_connection self.next_conn_id
            (active_connection self user_id peer_addr now)
            (fetch_id self))
unfolding register list_connection insert_connection fetch_id active_connection
register-steps self user_id peer_addr now = refl

-- Undisturbed, the two accesses make `unregister`.
pub unregister-steps :
    (self : ConnectionManager) (conn_id : ℕ) (conn : ActiveConnection)
    → lookup self.connections conn_id ≡ some conn
    → unregister self conn_id
      ≡ unlist_connection conn_id conn.info.user_id (remove_connection conn_id self)
unfolding unregister drop_conn unlist_connection remove_connection
unregister-steps self conn_id conn e = rw e refl
