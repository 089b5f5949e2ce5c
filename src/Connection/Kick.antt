-- ===== src/Connection/Kick.antt =====
-- Whom `kick_user` and `cancel_all` cancel.
use server_naive_rs.Common.{
  ℕ, ◌+◌, ◌≡◌, ◌≢◌, refl, sym, ap, ◌∙◌, arith, Bool, true, false, ◌==◌, ==_iff, ==_refl, List, [],
  ◌∷◌, length, Option, none, some, ◌||◌, Option-cases, Bool-cases, inl, inr,
}
use server_naive_rs.Common.Assoc.{lookup, has}
use server_naive_rs.Connection.{
  ActiveConnection, ConnectionManager, or_default, kick_loop, kick_user, cancel_loop, cancel_all,
  connection_count, is_cancelled,
}
use server_naive_rs.Connection.Agreement.{IsConsistent, owns}

abbrev pub holds : Option ActiveConnection → ℕ → Bool
holds none t = false
holds (some conn) t = conn.cancel_token == t

abbrev pub token_of : Option ActiveConnection → ℕ
token_of none = 0
token_of (some conn) = conn.cancel_token

abbrev pub one_holds : List (ℕ × ActiveConnection) → List ℕ → ℕ → Bool
one_holds connections [] t = false
one_holds connections (id ∷ ids) t = holds (lookup connections id) t || one_holds connections ids t

pub kick_loop-has :
    (connections : List (ℕ × ActiveConnection)) (ids : List ℕ) (n : ℕ) (cancelled : List ℕ) (t : ℕ)
    → has t (kick_loop connections ids n cancelled).1
      ≡ (one_holds connections ids t || has t cancelled)
unfolding kick_loop has
kick_loop-has connections [] n cancelled t = refl
kick_loop-has connections (id ∷ ids) n cancelled t = elim (Option-cases (lookup connections id)) [
  | inl e ↦ rw (e, kick_loop) (kick_loop-has connections ids n cancelled t)
  | inr (conn, e) ↦
      rw (e, kick_loop, kick_loop-has connections ids (n + 1) (conn.cancel_token ∷ cancelled) t)
        (ground arith)
]

kick_loop_count :
    (connections : List (ℕ × ActiveConnection)) (ids : List ℕ) (n : ℕ) (cancelled : List ℕ)
    → ((id : ℕ) → has id ids ≡ true → lookup connections id ≢ none)
    → (kick_loop connections ids n cancelled).0 ≡ n + length ids
unfolding kick_loop has
kick_loop_count connections [] n cancelled h = omega arith
kick_loop_count connections (id ∷ ids) n cancelled h = elim (Option-cases (lookup connections id)) [
  | inl e ↦ absurd (h id (ground (arith, ==_refl id)) e)
  | inr (conn, e) ↦
      rw (e, kick_loop)
        (omega (
          arith,
          kick_loop_count connections ids (n + 1) (conn.cancel_token ∷ cancelled)
              (λ j m. h j (ground (arith, m))),
        ))
]

-- What `kick_user` leaves: its count and the registry after it.
abbrev pub Kicked : ConnectionManager → ℕ → ℕ × ConnectionManager → Type 0
Kicked self u (kicked, after) =
    ((id : ℕ) (conn : ActiveConnection)
      → lookup self.connections id ≡ some conn
      → is_cancelled after conn.cancel_token
        ≡ (conn.info.user_id == u || is_cancelled self conn.cancel_token))
    × (kicked ≡ length (or_default (lookup self.user_connections u)))
    × (after.connections ≡ self.connections)
    × (after.user_connections ≡ self.user_connections)

-- What `cancel_all` leaves.
abbrev pub AllCancelled : ConnectionManager → ℕ × ConnectionManager → Type 0
AllCancelled self (n, after) =
    ((id : ℕ) (conn : ActiveConnection)
      → lookup self.connections id ≡ some conn
      → is_cancelled after conn.cancel_token ≡ true)
    × ((t : ℕ) → is_cancelled self t ≡ true → is_cancelled after t ≡ true)
    × (n ≡ connection_count self)
    × (after.connections ≡ self.connections)

module _ (self : ConnectionManager) (v : IsConsistent self) where
  holds-token :
      (id j : ℕ) (conn : ActiveConnection) (o : Option ActiveConnection)
      → lookup self.connections id ≡ some conn
      → lookup self.connections j ≡ o
      → holds o conn.cancel_token ≡ (j == id)
  holds-token id j conn none e f = ground (arith, ==_iff j id)
  holds-token id j conn (some c) e f = elim (Bool-cases (j == id)) [
    | inl same ↦
        let tokens =
          ap token_of (sym f ∙ ap (lookup self.connections) ((==_iff j id).0 same) ∙ e) in
        rw same ((==_iff c.cancel_token conn.cancel_token).1 tokens)
    | inr apart ↦ ground (arith, v.distinct j id c conn f e, ==_iff j id)
  ]

  -- One of a list of connections holds the token of a connection exactly if that is in the list.
  one_holds-has :
      (id : ℕ) (conn : ActiveConnection)
      → lookup self.connections id ≡ some conn
      → (ids : List ℕ) → one_holds self.connections ids conn.cancel_token ≡ has id ids
  unfolding has
  one_holds-has id conn e [] = refl
  one_holds-has id conn e (j ∷ ids) =
      rw (holds-token id j conn (lookup self.connections j) e refl, one_holds-has id conn e ids)
        refl

  -- In a consistent registry `kick_user` cancels the tokens of the user's connections and of no other
  -- registered connection, counts all connections in the user's set, and keeps the maps.
  pub kick_user_lem : (u : ℕ) → Kicked self u (kick_user self u)
  unfolding kick_user is_cancelled owns
  kick_user_lem u = (
    λ id conn e.
        kick_loop-has self.connections ids 0 self.cancelled conn.cancel_token
        ∙ ap (λ b. b || has conn.cancel_token self.cancelled)
            (one_holds-has id conn e ids ∙ v.agrees id u ∙ ap (λ o. owns o u) e),
    omega (arith, kick_loop_count self.connections ids 0 self.cancelled registered),
    refl,
    refl,
  )
    where
      ids : List ℕ
      ids = or_default (lookup self.user_connections u)

      registered : (id : ℕ) → has id ids ≡ true → lookup self.connections id ≢ none
      registered id m n = cc (sym m ∙ v.agrees id u ∙ ap (λ o. owns o u) n)

cancel_loop_count :
    (entries : List (ℕ × ActiveConnection)) (n : ℕ) (cancelled : List ℕ)
    → (cancel_loop entries n cancelled).0 ≡ n + length entries
unfolding cancel_loop
cancel_loop_count [] n cancelled = omega arith
cancel_loop_count ((id, conn) ∷ entries) n cancelled =
    omega (arith, cancel_loop_count entries (n + 1) (conn.cancel_token ∷ cancelled))

cancel_loop_kept :
    (entries : List (ℕ × ActiveConnection)) (n : ℕ) (cancelled : List ℕ) (t : ℕ)
    → has t cancelled ≡ true
    → has t (cancel_loop entries n cancelled).1 ≡ true
unfolding cancel_loop has
cancel_loop_kept [] n cancelled t h = h
cancel_loop_kept ((id, conn) ∷ entries) n cancelled t h =
    cancel_loop_kept entries (n + 1) (conn.cancel_token ∷ cancelled) t (ground (arith, h))

cancel_loop-has :
    (entries : List (ℕ × ActiveConnection)) (n : ℕ) (cancelled : List ℕ) (id : ℕ)
    (conn : ActiveConnection)
    → lookup entries id ≡ some conn
    → has conn.cancel_token (cancel_loop entries n cancelled).1 ≡ true
unfolding cancel_loop has lookup
cancel_loop-has [] n cancelled id conn e = cc
cancel_loop-has ((j, c) ∷ entries) n cancelled id conn e = elim (Bool-cases (j == id)) [
  | inl same ↦
      cancel_loop_kept entries (n + 1) (c.cancel_token ∷ cancelled) conn.cancel_token
        (ground (arith, ap token_of (rw same at e)))
  | inr apart ↦ cancel_loop-has entries (n + 1) (c.cancel_token ∷ cancelled) id conn (rw apart at e)
]

-- `cancel_all` cancels the token of every registered connection, none is restored, it counts the
-- connections, and keeps the maps.
pub cancel_all_lem : (self : ConnectionManager) → AllCancelled self (cancel_all self)
unfolding cancel_all is_cancelled connection_count
cancel_all_lem self = (
  λ id conn e. cancel_loop-has self.connections 0 self.cancelled id conn e,
  λ t h. cancel_loop_kept self.connections 0 self.cancelled t h,
  omega (arith, cancel_loop_count self.connections 0 self.cancelled),
  refl,
)
