-- ===== src/Outbound/Engine.antt =====
-- `AclEngine` of acl.rs: its outbounds by name, and its rules. Parsing and compiling the rules, and
-- the geodata, are acl-engine-rs's; reading the file and its YAML are std's and serde's.
use Prim.Native.String.{String}
use text.Mathlib.Text.{◌==◌ as str_eq}
use server_naive_rs.Common.{ℕ, Bool, false, List, [], ◌∷◌, Option, none, some, if◌then◌else◌}
use server_naive_rs.Address.{Address}
use server_naive_rs.Router.{OutboundHandler, direct, reject}
use server_naive_rs.Router.Acl.{AclEngine, get}
use server_naive_rs.Outbound.{
  OutboundEntry, Outside, EntryError, EntryResult, made, failed, from_entry,
}

pub record AclConfig : Type 0 where
  pub outbounds : List OutboundEntry
  pub acl_inline : List String

abbrev pub Outbounds : Type 0 → Type 0
Outbounds D = List (String × OutboundHandler D)

-- `HashMap::insert` takes the place of a binding.
unfoldable pub without : {D : Type 0} → String → Outbounds D → Outbounds D
without name [] = []
without name ((n, h) ∷ m) =
    let rest = without name m in if str_eq n name then rest else (n, h) ∷ rest

unfoldable pub insert : {D : Type 0} → String → OutboundHandler D → Outbounds D → Outbounds D
unfolding without
insert name h m = (name, h) ∷ without name m

-- `entry(name).or_insert_with(...)`.
unfoldable pub or_insert : {D : Type 0} → String → OutboundHandler D → Outbounds D → Outbounds D
unfolding get
or_insert name h m = elim (get m name) [ none ↦ (name, h) ∷ m | some old ↦ m ]

-- The loader of the geodata, from the data directory and the wish to refresh.
pub data GeoLoader : Type 0 where
  nil_loader : GeoLoader
  auto_loader : Option String → Bool → GeoLoader

-- acl-engine-rs's rules: `X` are parsed ones. What is compiled takes a target to an outbound.
pub record Rules (X D : Type 0) : Type 0 where
  pub parse : List String → Option X
  pub compile : X → Outbounds D → ℕ → GeoLoader → Option (Address → Option (OutboundHandler D))

pub data EngineError : Type 0 where
  entry_error : EntryError → EngineError
  invalid_rules not_compiled : EngineError

pub data EngineResult (D : Type 0) : Type 0 where
  engine : AclEngine D → EngineResult D
  no_engine : EngineError → EngineResult D

unfoldable pub rules_of : List String → List String
rules_of [] = "direct(all)" ∷ []
rules_of (line ∷ lines) = line ∷ lines

module _ {D : Type 0} (out : Outside D) where
  -- The loop over the entries.
  unfoldable pub load : List OutboundEntry → Outbounds D → EntryResult (Outbounds D)
  unfolding insert
  load [] m = made m
  load (entry ∷ entries) m = elim (from_entry out entry) [
    | failed e ↦ failed e
    | made h ↦ load entries (insert entry.name h m)
  ]

  unfoldable pub defaults : Outbounds D → Outbounds D
  unfolding or_insert
  defaults m =
      or_insert "direct" (direct out.direct_new false)
        (or_insert "reject" (reject out.reject_new) m)

module _ {X D : Type 0} (out : Outside D) (rules : Rules X D) where
  unfoldable pub compiled : List String → ℕ → GeoLoader → Outbounds D → EngineResult D
  compiled lines cache loader m = elim (rules.parse lines) [
    | none ↦ no_engine invalid_rules
    | some x ↦ elim (rules.compile x m cache loader) [
      | none ↦ no_engine not_compiled
      | some f ↦ engine (record { compiled = f; outbounds = m })
    ]
  ]

  -- `AclEngine::new`.
  unfoldable pub new : AclConfig → Option String → Bool → EngineResult D
  unfolding load defaults compiled rules_of
  new config data_dir refresh_geodata = elim (load out config.outbounds []) [
    | failed e ↦ no_engine (entry_error e)
    | made m ↦
        compiled (rules_of config.acl_inline) 4096 (auto_loader data_dir refresh_geodata)
          (defaults out m)
  ]

  unfoldable pub new_default : EngineResult D
  unfolding insert compiled
  new_default =
      compiled ("direct(all)" ∷ []) 1024 nil_loader
        (insert "reject" (reject out.reject_new) (insert "direct" (direct out.direct_new false) []))
