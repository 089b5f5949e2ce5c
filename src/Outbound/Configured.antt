-- ===== src/Outbound/Configured.antt =====
-- The outbounds that the engine has by name.
use Prim.Native.String.{String}
use text.Mathlib.Text.{◌==◌ as str_eq}
use text.Mathlib.TextEquality.{eq_iff}
use server_naive_rs.Common.{
  ◌≡◌, ◌≢◌, refl, sym, ap, ◌∙◌, Bool, true, false, List, [], ◌∷◌, Option, none, some, if◌then◌else◌,
  Bool-cases, inl, inr,
}
use server_naive_rs.Address.{Address}
use server_naive_rs.Router.{OutboundHandler, direct, reject}
use server_naive_rs.Router.Acl.{get, match_host}
use server_naive_rs.Outbound.{
  OutboundEntry, Outside, EntryError, EntryResult, made, failed, from_entry,
}
use server_naive_rs.Outbound.Engine.{
  AclConfig, Outbounds, insert, or_insert, GeoLoader, Rules, EngineResult, engine, no_engine,
  entry_error, invalid_rules, not_compiled, load, defaults, compiled, rules_of, new,
}
use server_naive_rs.Outbound.Named.{get-insert, get-or_insert, or_else}

abbrev pub made_of : {A : Type 0} → EntryResult A → Option A
made_of (made a) = some a
made_of (failed e) = none

module _ {D : Type 0} (out : Outside D) where
  -- What the last entry with a name makes.
  unfoldable pub last_named : List OutboundEntry → String → Option (OutboundHandler D)
  last_named [] k = none
  last_named (entry ∷ entries) k =
      or_else (last_named entries k)
        (if str_eq entry.name k then made_of (from_entry out entry) else none)

  -- The outbound of a name, by the configuration alone.
  unfoldable pub outbound_named : List OutboundEntry → String → Option (OutboundHandler D)
  unfolding last_named
  outbound_named entries k = or_else (last_named entries k) (
      if str_eq "direct" k
      then some (direct out.direct_new false)
      else (if str_eq "reject" k then some (reject out.reject_new) else none))

  or_else_assoc :
      {A : Type 0} (a b c : Option A) → or_else (or_else a b) c ≡ or_else a (or_else b c)
  or_else_assoc none b c = refl
  or_else_assoc (some a) b c = refl

  -- The error of the first entry that makes no outbound.
  unfoldable pub first_failure : List OutboundEntry → Option EntryError
  first_failure [] = none
  first_failure (entry ∷ entries) = elim (from_entry out entry) [
    | failed e ↦ some e
    | made h ↦ first_failure entries
  ]

  -- The map has what the last entry with a name made, or what it had before.
  abbrev Loaded : List OutboundEntry → Outbounds D → EntryResult (Outbounds D) → Type 0
  Loaded entries m (failed e) = first_failure entries ≡ some e
  Loaded entries m (made m') =
      (first_failure entries ≡ none)
      × ((k : String) → get m' k ≡ or_else (last_named entries k) (get m k))

  load-Loaded :
      (entries : List OutboundEntry) (m : Outbounds D) → Loaded entries m (load out entries m)
  unfolding load last_named first_failure
  load-Loaded [] m = (refl, λ k. refl)
  load-Loaded (entry ∷ entries) m =
      loaded (from_entry out entry) refl (λ h. load-Loaded entries (insert entry.name h m))
    where
      put_first :
          (h : OutboundHandler D) (k : String)
          → get (insert entry.name h m) k
            ≡ or_else (if str_eq entry.name k then some h else none) (get m k)
      put_first h k = elim (Bool-cases (str_eq entry.name k)) [
        | inl same ↦ get-insert entry.name h m k ∙ rw same refl
        | inr other ↦ get-insert entry.name h m k ∙ rw other refl
      ]

      passed :
          (h : OutboundHandler D) (r : EntryResult (Outbounds D))
          → from_entry out entry ≡ made h
          → Loaded entries (insert entry.name h m) r
          → Loaded (entry ∷ entries) m r
      passed h (failed e) q l = rw (q, first_failure) l
      passed h (made m') q l = (
        rw (q, first_failure) l.0,
        λ k.
            l.1 k
            ∙ ap (or_else (last_named entries k)) (put_first h k)
            ∙ sym (
                or_else_assoc (last_named entries k) (if str_eq entry.name k then some h else none)
                  (get m k))
            ∙ rw (q, last_named) refl,
      )

      loaded :
          (r : EntryResult (OutboundHandler D))
          → from_entry out entry ≡ r
          → ((h : OutboundHandler D)
              → Loaded entries (insert entry.name h m) (load out entries (insert entry.name h m)))
          → Loaded
              (entry ∷ entries)
              m
              (elim r [ failed e ↦ failed e | made h ↦ load out entries (insert entry.name h m) ])
      loaded (failed e) q ih = rw (q, first_failure) refl
      loaded (made h) q ih = passed h (load out entries (insert entry.name h m)) q (ih h)

or_else_defaults :
    {A : Type 0} (o : Option A) (x y : A) (p q : Bool)
    → (p ≡ true → q ≡ false)
    → or_else (or_else (or_else o none) (if q then some y else none)) (if p then some x else none)
      ≡ or_else o (if p then some x else (if q then some y else none))
or_else_defaults (some a) x y p q h = refl
or_else_defaults none x y p true h = elim (Bool-cases p) [
  | inl held ↦ cc (h held)
  | inr not_held ↦ rw not_held refl
]
or_else_defaults none x y true false h = refl
or_else_defaults none x y false false h = refl

or_else-some : {A : Type 0} (o : Option A) (a : A) → or_else o (some a) ≢ none
or_else-some none a e = cc
or_else-some (some b) a e = cc

module _ {X D : Type 0} (out : Outside D) (rules : Rules X D) where
  -- What becomes of a configuration.
  abbrev pub Configured : List OutboundEntry → EngineResult D → Type 0
  Configured entries (no_engine (entry_error e)) = first_failure out entries ≡ some e
  Configured entries (no_engine invalid_rules) = first_failure out entries ≡ none
  Configured entries (no_engine not_compiled) = first_failure out entries ≡ none
  Configured entries (engine self) =
      (first_failure out entries ≡ none)
      × ((name : String) → get self.outbounds name ≡ outbound_named out entries name)
      × ((addr : Address) → match_host self addr ≢ none)

  -- An engine is made only if every entry makes an outbound; an entry's error is that of the first
  -- that makes none. A name then stands for what the last entry with it made, the names "direct" and
  -- "reject" for a plain connection and a rejection if no entry has them, and the engine finds an
  -- outbound for every target.
  pub new-Configured :
      (config : AclConfig) (data_dir : Option String) (refresh : Bool)
      → Configured config.outbounds (new out rules config data_dir refresh)
  unfolding new compiled match_host outbound_named
  new-Configured config data_dir refresh =
      start (load out config.outbounds []) (load-Loaded out config.outbounds [])
    where
      named :
          (m : Outbounds D)
          → ((k : String) → get m k ≡ or_else (last_named out config.outbounds k) none)
          → (k : String) → get (defaults out m) k ≡ outbound_named out config.outbounds k
      named m h k =
          get-or_insert "direct" (direct out.direct_new false)
            (or_insert "reject" (reject out.reject_new) m) k
          ∙ ap
              (λ o.
                or_else o (if str_eq "direct" k then some (direct out.direct_new false) else none))
              (get-or_insert "reject" (reject out.reject_new) m k
                ∙ ap
                    (λ o.
                      or_else o (if str_eq "reject" k then some (reject out.reject_new) else none))
                    (h k))
          ∙ or_else_defaults (last_named out config.outbounds k) (direct out.direct_new false)
              (reject out.reject_new) (str_eq "direct" k) (str_eq "reject" k)
              (λ e. ap (str_eq "reject") (sym ((eq_iff "direct" k).0 e)))

      found :
          (m : Outbounds D) (f : Address → Option (OutboundHandler D))
          → ((k : String) → get m k ≡ outbound_named out config.outbounds k)
          → (addr : Address) (o : Option (OutboundHandler D))
          → (elim o [ some h ↦ some h | none ↦ get m "direct" ]) ≢ none
      found m f h addr (some handler) = λ e. cc
      found m f h addr none = λ e.
          or_else-some (last_named out config.outbounds "direct") (direct out.direct_new false)
            (sym (h "direct") ∙ e)

      built :
          (m : Outbounds D)
          → (first_failure out config.outbounds ≡ none)
          → ((k : String) → get m k ≡ outbound_named out config.outbounds k)
          → Configured config.outbounds (
              compiled out rules
                (rules_of config.acl_inline)
                4096
                (GeoLoader.auto_loader data_dir refresh)
                m)
      built m e h = parsed (rules.parse (rules_of config.acl_inline))
        where
          over :
              (o : Option (Address → Option (OutboundHandler D)))
              → Configured config.outbounds (elim o [
                | none ↦ no_engine not_compiled
                | some f ↦ engine (record { compiled = f; outbounds = m })
              ])
          over none = e
          over (some f) = (e, h, λ addr. found m f h addr (f addr))

          parsed :
              (o : Option X)
              → Configured config.outbounds (elim o [
                | none ↦ no_engine invalid_rules
                | some x ↦ elim (rules.compile x m 4096 (GeoLoader.auto_loader data_dir refresh)) [
                  | none ↦ no_engine not_compiled
                  | some f ↦ engine (record { compiled = f; outbounds = m })
                ]
              ])
          parsed none = e
          parsed (some x) = over (rules.compile x m 4096 (GeoLoader.auto_loader data_dir refresh))

      start :
          (r : EntryResult (Outbounds D))
          → Loaded out config.outbounds [] r
          → Configured config.outbounds (elim r [
            | failed e ↦ no_engine (entry_error e)
            | made m ↦
                compiled out rules
                  (rules_of config.acl_inline)
                  4096
                  (GeoLoader.auto_loader data_dir refresh)
                  (defaults out m)
          ])
      start (failed e) l = l
      start (made m) l = built (defaults out m) l.0 (named m l.1)
