-- ===== src/ConfigAuto.antt =====
-- config_auto.rs: the limit on connections, computed from the machine's resources.
mod Tests
use Prim.Native.String.{String}
use server_naive_rs.Common.{
  ℕ, zero, suc, ◌+◌, ◌-◌, ◌*◌, ◌/◌, ◌^◌, ◌≤◌, ◌<◌, ◌≡◌, ◌⊎◌, inl, inr, refl, arith, min, max, Bool,
  true, false, ◌&&◌, ◌||◌, ◌==◌, leb, ltb, not, Option, none, some, if◌then◌else◌,
}

pub data MaxConnections : Type 0 where
  auto : MaxConnections
  fixed : ℕ → MaxConnections

pub data Limit : Type 0 where
  cpu memory file_descriptors : Limit

pub record AutoBreakdown : Type 0 where
  pub value : ℕ
  pub cpu_cap : ℕ
  pub mem_cap : ℕ
  pub fd_cap : ℕ
  pub limiting : Limit

-- `MaxConnections::from_str`, over std's `eq_ignore_ascii_case("auto")` and its parser of numbers.
unfoldable pub from_str : (String → Bool) → (String → Option ℕ) → String → Option MaxConnections
from_str is_auto parse_usize s =
    if is_auto s
    then some auto
    else elim (parse_usize s) [ none ↦ none | some n ↦ (if n == 0 then none else some (fixed n)) ]

-- `u64::saturating_mul`.
abbrev saturating_mul : ℕ → ℕ → ℕ
saturating_mul a b = min (a * b) (2 ^ 64 - 1)

abbrev pub fd_reserve : ℕ → ℕ
fd_reserve nofile_soft = min 1024 (nofile_soft / 4)

unfoldable pub limiting_of : ℕ → ℕ → ℕ → Limit
limiting_of cpu_cap mem_cap fd_cap =
    if leb cpu_cap mem_cap && leb cpu_cap fd_cap
    then cpu
    else if leb mem_cap fd_cap
    then memory
    else file_descriptors

-- `saturating_sub` of the reserve is subtraction that stops at 0.
unfoldable pub compute_auto : ℕ → ℕ → ℕ → AutoBreakdown
unfolding limiting_of
compute_auto cpus total_mem_kb nofile_soft =
    let cpu_cap = saturating_mul (saturating_mul (max cpus 1) 1500) 1000 / 200 in
    let mem_cap = saturating_mul total_mem_kb 50 / 100 / 200 in
    let fd_cap = (nofile_soft - fd_reserve nofile_soft) / 2 in
    record {
      value = max (min (min cpu_cap mem_cap) fd_cap) 1;
      cpu_cap = cpu_cap;
      mem_cap = mem_cap;
      fd_cap = fd_cap;
      limiting = limiting_of cpu_cap mem_cap fd_cap;
    }

unfoldable pub fixed_exceeds_auto_cap : ℕ → AutoBreakdown → Bool
fixed_exceeds_auto_cap value bd =
    not (leb value bd.cpu_cap) || not (leb value bd.mem_cap) || not (leb value bd.fd_cap)

pub data ResolveMode : Type 0 where
  auto fixed : ResolveMode

pub record ResolvedMaxConnections : Type 0 where
  pub value : ℕ
  pub mode : ResolveMode
  pub breakdown : AutoBreakdown
  pub cpus : ℕ
  pub total_mem_kb : ℕ
  pub nofile_soft : ℕ

unfoldable pub unwrap_or : Option ℕ → ℕ → ℕ
unwrap_or none n = n
unwrap_or (some m) n = m

unfoldable pub as_str : Limit → String
as_str cpu = "cpu"
as_str memory = "memory"
as_str file_descriptors = "fd"

-- On Linux, from the answers of `sysconf` on the pages and on their size; none is a negative answer.
unfoldable pub total_memory_kb : Option ℕ → Option ℕ → Option ℕ
total_memory_kb none page_size = none
total_memory_kb (some pages) none = none
total_memory_kb (some pages) (some page_size) =
    if ltb 0 pages && ltb 0 page_size then some (saturating_mul pages page_size / 1024) else none

-- From the answer of `getrlimit` and the soft limit that it fills in.
unfoldable pub nofile_soft_limit : ℕ → ℕ → Option ℕ
nofile_soft_limit ret rlim_cur = if ret == 0 then some rlim_cur else none

-- The readings are those of the operating system, where it gives them.
unfoldable pub resolve : Option ℕ → Option ℕ → Option ℕ → MaxConnections → ResolvedMaxConnections
unfolding compute_auto unwrap_or
resolve parallelism memory_kb nofile spec =
    let cpus = unwrap_or parallelism 1 in
    let total_mem_kb = unwrap_or memory_kb (4 * 1024 * 1024) in
    let nofile_soft = unwrap_or nofile 65536 in
    let breakdown = compute_auto cpus total_mem_kb nofile_soft in
    record {
      value = elim spec [ auto ↦ breakdown.value | fixed n ↦ n ];
      mode = elim spec [ auto ↦ ResolveMode.auto | fixed n ↦ ResolveMode.fixed ];
      breakdown = breakdown;
      cpus = cpus;
      total_mem_kb = total_mem_kb;
      nofile_soft = nofile_soft;
    }

-- The cap of the resource that limits.
abbrev pub cap_of : AutoBreakdown → ℕ
cap_of bd = elim bd.limiting [
  | cpu ↦ bd.cpu_cap
  | memory ↦ bd.mem_cap
  | file_descriptors ↦ bd.fd_cap
]

-- The least of three caps, and one at least: it is one, or below each.
least : (a b c : ℕ) → let v = max (min (min a b) c) 1 in (v ≡ 1) ⊎ ((v ≤ a) × (v ≤ b) × (v ≤ c))
least a b c = go (min (min a b) c) (omega arith) (omega arith) (omega arith)
  where
    go :
        (m : ℕ)
        → m ≤ a
        → m ≤ b
        → m ≤ c
        → (max m 1 ≡ 1) ⊎ ((max m 1 ≤ a) × (max m 1 ≤ b) × (max m 1 ≤ c))
    go zero p q r = inl refl
    go (suc m) p q r = inr (omega arith, omega arith, omega arith)

limiting_cap :
    (a b c value : ℕ)
    → (not (leb value a) || not (leb value b) || not (leb value c))
      ≡ not (leb value (elim (limiting_of a b c) [ cpu ↦ a | memory ↦ b | file_descriptors ↦ c ]))
unfolding limiting_of
limiting_cap a b c value = ground arith

module _ (cpus total_mem_kb nofile_soft : ℕ) where
  -- The computed limit is one connection, or that many connections fit: at two descriptors each
  -- beside the reserve, at 200 kB each in half of the memory, and at 200 kbit/s each in 1500 Mbit/s
  -- for each processor, of which one at least is counted.
  pub compute_auto_fits :
      let bd = compute_auto cpus total_mem_kb nofile_soft in
      (bd.value ≡ 1)
      ⊎ ((bd.value * 2 + fd_reserve nofile_soft ≤ nofile_soft)
          × (bd.value * 200 * 2 ≤ total_mem_kb)
          × (bd.value * 200 ≤ max cpus 1 * 1500 * 1000))
  unfolding compute_auto
  compute_auto_fits = go (least cpu_cap mem_cap fd_cap)
    where
      cpu_cap : ℕ
      cpu_cap = saturating_mul (saturating_mul (max cpus 1) 1500) 1000 / 200

      mem_cap : ℕ
      mem_cap = saturating_mul total_mem_kb 50 / 100 / 200

      fd_cap : ℕ
      fd_cap = (nofile_soft - fd_reserve nofile_soft) / 2

      go :
          let v = max (min (min cpu_cap mem_cap) fd_cap) 1 in
          (v ≡ 1) ⊎ ((v ≤ cpu_cap) × (v ≤ mem_cap) × (v ≤ fd_cap))
          → (v ≡ 1)
            ⊎ ((v * 2 + fd_reserve nofile_soft ≤ nofile_soft)
                × (v * 200 * 2 ≤ total_mem_kb)
                × (v * 200 ≤ max cpus 1 * 1500 * 1000))
      go (inl one) = inl one
      go (inr (c, m, f)) = inr (omega (arith, f), omega (arith, m), omega (arith, c))

  -- A fixed limit is reported as above the computed caps exactly if it is above the cap of the
  -- resource that is named as limiting.
  pub fixed_exceeds_auto_cap_limiting :
      (value : ℕ)
      → let bd = compute_auto cpus total_mem_kb nofile_soft in
        fixed_exceeds_auto_cap value bd ≡ not (leb value (cap_of bd))
  unfolding compute_auto fixed_exceeds_auto_cap
  fixed_exceeds_auto_cap_limiting value =
      limiting_cap (saturating_mul (saturating_mul (max cpus 1) 1500) 1000 / 200)
        (saturating_mul total_mem_kb 50 / 100 / 200) ((nofile_soft - fd_reserve nofile_soft) / 2)
        value
