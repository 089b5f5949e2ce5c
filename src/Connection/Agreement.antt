-- ===== src/Connection/Agreement.antt =====
-- The agreement of the two maps of the registry.
use server_naive_rs.Common.{
  ℕ, ◌+◌, ◌^◌, ◌≤◌, ◌<◌, ◌≡◌, ◌≢◌, ◌⊎◌, refl, sym, ap, ◌∙◌, arith, Bool, true, false, ◌==◌, ==_iff,
  List, [], ◌∷◌, Option, none, some, if◌then◌else◌, not, ◌&&◌, Option-cases, inl, inr,
}
use server_naive_rs.Common.Assoc.{
  lookup, without, has, with_member, without_member, lookup-put, lookup-without, has-with_member,
  has-without_member,
}
use server_naive_rs.Address.{SocketAddr}
use server_naive_rs.Connection.{
  ActiveConnection, ConnectionManager, new, or_default, register, put_back, leave, drop_conn,
  unregister,
}

-- Whether a connection is there and is the user's.
unfoldable pub owns : Option ActiveConnection → ℕ → Bool
owns none u = false
owns (some conn) u = conn.info.user_id == u

-- The maps agree on whose a connection is, no user has an empty set, the names handed out are
-- behind the next ones, and no two connections share a token.
pub record IsConsistent (self : ConnectionManager) : Type 0 where
  pub agrees :
      (id u : ℕ)
      → has id (or_default (lookup self.user_connections u)) ≡ owns (lookup self.connections id) u
  pub inhabited : (u : ℕ) → lookup self.user_connections u ≢ some []
  pub fresh_id : (id : ℕ) → self.next_conn_id ≤ id → lookup self.connections id ≡ none
  pub fresh_token :
      (id : ℕ) (conn : ActiveConnection)
      → lookup self.connections id ≡ some conn
      → conn.cancel_token < self.next_token
  pub distinct :
      (id id' : ℕ) (conn conn' : ActiveConnection)
      → lookup self.connections id ≡ some conn
      → lookup self.connections id' ≡ some conn'
      → conn.cancel_token ≡ conn'.cancel_token
      → id ≡ id'

pub new-IsConsistent : IsConsistent new
unfolding new lookup or_default has owns
new-IsConsistent = record {
  agrees = λ id u. refl;
  inhabited = λ u e. cc;
  fresh_id = λ id h. refl;
  fresh_token = λ id conn e. cc;
  distinct = λ id id' conn conn' e e' t. cc;
}

pub members_nonempty : (x : ℕ) (s : List ℕ) → with_member x s ≢ []
unfolding with_member has
members_nonempty x [] e = cc
members_nonempty x (y ∷ s) e = ground arith

module _ (self : ConnectionManager) (v : IsConsistent self) (u : ℕ) (peer : SocketAddr) (now : ℕ)
    (room : self.next_conn_id + 1 < 2 ^ 64) where
  abbrev added : ActiveConnection
  added = record {
    info = record { user_id = u; peer_addr = peer; connected_at = now };
    cancel_token = self.next_token;
  }

  unregistered : lookup self.connections self.next_conn_id ≡ none
  unregistered = v.fresh_id self.next_conn_id (omega arith)

  conn_after :
      (id : ℕ)
      → lookup (register self u peer now).1.connections id
        ≡ (if self.next_conn_id == id then some added else lookup self.connections id)
  unfolding register
  conn_after id = lookup-put self.next_conn_id added self.connections id

  users_after :
      (w : ℕ)
      → lookup (register self u peer now).1.user_connections w ≡ (
          if u == w
          then some (with_member self.next_conn_id (or_default (lookup self.user_connections u)))
          else lookup self.user_connections w)
  unfolding register
  users_after w = lookup-put u _ self.user_connections w

  agrees_after :
      (id w : ℕ)
      → has id (or_default (lookup (register self u peer now).1.user_connections w))
        ≡ owns (lookup (register self u peer now).1.connections id) w
  unfolding owns or_default
  agrees_after id w = ground (
    arith,
    conn_after id,
    users_after w,
    has-with_member self.next_conn_id (or_default (lookup self.user_connections u)) id,
    v.agrees id w,
    unregistered,
  )

  inhabited_after : (w : ℕ) → lookup (register self u peer now).1.user_connections w ≢ some []
  inhabited_after w e = ground (
    arith,
    users_after w,
    v.inhabited w,
    members_nonempty self.next_conn_id (or_default (lookup self.user_connections u)),
  )

  fresh_id_after :
      (id : ℕ)
      → (register self u peer now).1.next_conn_id ≤ id
      → lookup (register self u peer now).1.connections id ≡ none
  unfolding register
  fresh_id_after id h = ground (arith, conn_after id, v.fresh_id id)

  -- What is found is the new connection or was there before.
  found_after :
      (id : ℕ) (conn : ActiveConnection)
      → lookup (register self u peer now).1.connections id ≡ some conn
      → ((id ≡ self.next_conn_id) × (conn ≡ added)) ⊎ (lookup self.connections id ≡ some conn)
  found_after id conn e = go (self.next_conn_id == id) refl (sym (conn_after id) ∙ e)
    where
      go :
          (b : Bool)
          → (self.next_conn_id == id) ≡ b
          → (if b then some added else lookup self.connections id) ≡ some conn
          → ((id ≡ self.next_conn_id) × (conn ≡ added)) ⊎ (lookup self.connections id ≡ some conn)
      go true same f = inl (omega (arith, (==_iff self.next_conn_id id).0 same), cc)
      go false apart f = inr f

  fresh_token_after :
      (id : ℕ) (conn : ActiveConnection)
      → lookup (register self u peer now).1.connections id ≡ some conn
      → conn.cancel_token < self.next_token + 1
  fresh_token_after id conn e = elim (found_after id conn e) [
    | inl (i, c) ↦ rw c (omega arith)
    | inr before ↦ omega (arith, v.fresh_token id conn before)
  ]

  distinct_after :
      (id id' : ℕ) (conn conn' : ActiveConnection)
      → lookup (register self u peer now).1.connections id ≡ some conn
      → lookup (register self u peer now).1.connections id' ≡ some conn'
      → conn.cancel_token ≡ conn'.cancel_token
      → id ≡ id'
  distinct_after id id' conn conn' e e' t = go (found_after id conn e) (found_after id' conn' e')
    where
      go :
          ((id ≡ self.next_conn_id) × (conn ≡ added)) ⊎ (lookup self.connections id ≡ some conn)
          → ((id' ≡ self.next_conn_id) × (conn' ≡ added))
            ⊎ (lookup self.connections id' ≡ some conn')
          → id ≡ id'
      go (inl (i, c)) (inl (i', c')) = i ∙ sym i'
      go (inl (i, c)) (inr f) =
          absurd (omega (arith, v.fresh_token id' conn' f, t, ap (λ x. x.cancel_token) c))
      go (inr f) (inl (i, c)) =
          absurd (omega (arith, v.fresh_token id conn f, t, ap (λ x. x.cancel_token) c))
      go (inr f) (inr f') = v.distinct id id' conn conn' f f' t

  register-IsConsistent : IsConsistent (register self u peer now).1
  register-IsConsistent = record {
    agrees = agrees_after;
    inhabited = inhabited_after;
    fresh_id = fresh_id_after;
    fresh_token = unfold register in fresh_token_after;
    distinct = distinct_after;
  }

  -- Short of 2^64 connections, `register` keeps the registry consistent and gives out a connection id
  -- that was not in use; under it stands the new connection, of the user and with the token given out;
  -- the other connections are as they were, and nothing is cancelled.
  pub register_lem :
      let r = register self u peer now in
      IsConsistent r.1
      × (lookup self.connections r.0.0 ≡ none)
      × (lookup r.1.connections r.0.0 ≡ some (record added { cancel_token = r.0.1 }))
      × ((id : ℕ) → id ≢ r.0.0 → lookup r.1.connections id ≡ lookup self.connections id)
      × (r.1.cancelled ≡ self.cancelled)
  unfolding register
  register_lem = (
    register-IsConsistent,
    unregistered,
    ground (arith, conn_after self.next_conn_id),
    λ id apart. ground (arith, conn_after id),
    refl,
  )

-- The entry of a user whose set is the list.
abbrev entry_of : List ℕ → Option (List ℕ)
entry_of [] = none
entry_of (x ∷ s) = some (x ∷ s)

or_default-entry_of : (s : List ℕ) → or_default (entry_of s) ≡ s
unfolding or_default
or_default-entry_of [] = refl
or_default-entry_of (x ∷ s) = refl

entry_of_inhabited : (s : List ℕ) → entry_of s ≢ some []
entry_of_inhabited [] e = cc
entry_of_inhabited (x ∷ s) e = cc

lookup-put_back :
    (u : ℕ) (s : List ℕ) (users : List (ℕ × List ℕ)) (w : ℕ)
    → lookup (put_back u s users) w ≡ (if u == w then entry_of s else lookup users w)
unfolding put_back
lookup-put_back u [] users w = lookup-without u users w
lookup-put_back u (x ∷ s) users w = lookup-put u (x ∷ s) users w

-- What `remove_if_mut` leaves of the sets.
module _ (id u : ℕ) (users : List (ℕ × List ℕ)) where
  abbrev pub left : List (ℕ × List ℕ)
  left = leave id u (lookup users u) users

  lookup-left :
      (w : ℕ)
      → lookup left w ≡ (
          if u == w
          then entry_of (without_member id (or_default (lookup users u)))
          else lookup users w)
  unfolding leave or_default without_member
  lookup-left w = elim (Option-cases (lookup users u)) [
    | inl n ↦ rw n (ground (arith, n, ==_iff u w))
    | inr (s, e) ↦ rw e (lookup-put_back u (without_member id s) users w)
  ]

  pub has-left :
      (j w : ℕ)
      → has j (or_default (lookup left w))
        ≡ (not (u == w && id == j) && has j (or_default (lookup users w)))
  has-left j w = ground (
    arith,
    lookup-left w,
    or_default-entry_of (without_member id (or_default (lookup users u))),
    has-without_member id (or_default (lookup users u)) j,
  )

  pub left_inhabited : ((w : ℕ) → lookup users w ≢ some []) → (w : ℕ) → lookup left w ≢ some []
  left_inhabited h w e = ground (
    arith,
    lookup-left w,
    h w,
    entry_of_inhabited (without_member id (or_default (lookup users u))),
  )

-- What `unregister` leaves.
abbrev pub Left : ConnectionManager → ℕ → ConnectionManager → Type 0
Left self id after =
    IsConsistent after
    × (lookup after.connections id ≡ none)
    × ((j : ℕ) → j ≢ id → lookup after.connections j ≡ lookup self.connections j)
    × (after.cancelled ≡ self.cancelled)

module _ (self : ConnectionManager) (v : IsConsistent self) (id : ℕ) where
  still_there :
      (j : ℕ) (c : ActiveConnection)
      → lookup (without id self.connections) j ≡ some c
      → lookup self.connections j ≡ some c
  still_there j c f = ground (arith, lookup-without id self.connections j, f)

  agrees_left :
      (conn : ActiveConnection)
      → lookup self.connections id ≡ some conn
      → (j w : ℕ)
      → has j (or_default (lookup (left id conn.info.user_id self.user_connections) w))
        ≡ owns (lookup (without id self.connections) j) w
  unfolding owns
  agrees_left conn e j w = ground (
    arith,
    has-left id conn.info.user_id self.user_connections j w,
    lookup-without id self.connections j,
    v.agrees j w,
    e,
    ==_iff id j,
  )

  dropped :
      (conn : ActiveConnection)
      → lookup self.connections id ≡ some conn
      → Left self id (drop_conn self id (some conn))
  unfolding drop_conn
  dropped conn e = (
    record {
      agrees = λ j w. agrees_left conn e j w;
      inhabited = left_inhabited id conn.info.user_id self.user_connections v.inhabited;
      fresh_id = λ j h. ground (arith, lookup-without id self.connections j, v.fresh_id j h);
      fresh_token = λ j c f. v.fresh_token j c (still_there j c f);
      distinct =
          λ j j' c c' f f' t. v.distinct j j' c c' (still_there j c f) (still_there j' c' f') t;
    },
    ground (arith, lookup-without id self.connections id),
    λ j apart. ground (arith, lookup-without id self.connections j),
    refl,
  )

  -- `unregister` keeps the registry consistent, takes the connection out, leaves the others as they
  -- are, and cancels nothing; of a connection that is not there it changes nothing.
  pub unregister_lem : Left self id (unregister self id)
  unfolding unregister drop_conn
  unregister_lem = elim (Option-cases (lookup self.connections id)) [
    | inl n ↦ rw n (v, n, λ j apart. refl, refl)
    | inr (conn, e) ↦ rw e (dropped conn e)
  ]
