-- ===== src/Shutdown/Draining.antt =====
-- How the wait at the end of `main` ends.
use server_naive_rs.Common.{
  ℕ, zero, suc, ◌+◌, ◌*◌, ◌≤◌, ◌<◌, ◌≡◌, ◌≢◌, refl, subst, arith, Bool, true, false, ◌==◌, ==_iff,
  leb, ltb, Option, none, some, if◌then◌else◌, Bool-cases, inl, inr,
}
use server_naive_rs.Connection.{ConnectionManager, connection_count, cancel_all}
use server_naive_rs.Connection.Kick.{AllCancelled, cancel_all_lem}
use server_naive_rs.Shutdown.{Drained, all_drained, timed_out, Reading, drain, stop}

-- The clock of the rounds: a round sleeps for 100 ms before the next.
abbrev pub Ticks : (ℕ → Reading) → Type 0
Ticks readings = (i : ℕ) → (readings i).now + 100 ≤ (readings (i + 1)).now

-- The rounds before one, from `i` on, have read some connections, and a time before the deadline.
abbrev pub Waiting : (ℕ → Reading) → ℕ → ℕ → ℕ → Type 0
Waiting readings deadline i j =
    (k : ℕ) → i ≤ k → k < j → ((readings k).remaining ≢ 0) × ((readings k).now < deadline)

-- How a wait from its round `i` on ends.
abbrev pub Ends : (ℕ → Reading) → ℕ → ℕ → Option Drained → Type 0
Ends readings deadline i none = ◌≡◌ {A = ℕ} 0 1
Ends readings deadline i (some all_drained) =
    (j : ℕ) × (i ≤ j) × ((readings j).remaining ≡ 0) × Waiting readings deadline i j
Ends readings deadline i (some (timed_out left)) =
    (j : ℕ) × (i ≤ j)
    × ((readings j).remaining ≡ left)
    × (left ≢ 0)
    × (deadline ≤ (readings j).now)
    × Waiting readings deadline i j

module _ (readings : ℕ → Reading) (deadline : ℕ) (ticks : Ticks readings) where
  none_before : (i : ℕ) → Waiting readings deadline i i
  none_before i k h h' = absurd (omega arith)

  one_earlier :
      (i j : ℕ)
      → (readings i).remaining ≢ 0
      → (readings i).now < deadline
      → Waiting readings deadline (i + 1) j
      → Waiting readings deadline i j
  one_earlier i j some_left early waiting k h h' = elim (Bool-cases (i == k)) [
    | inl same ↦
        subst (λ n. ((readings n).remaining ≢ 0) × ((readings n).now < deadline))
          ((==_iff i k).0 same) (some_left, early)
    | inr apart ↦ waiting k (ground (arith, apart, h)) h'
  ]

  one_more :
      (i : ℕ)
      → (readings i).remaining ≢ 0
      → (readings i).now < deadline
      → (o : Option Drained) → Ends readings deadline (i + 1) o
      → Ends readings deadline i o
  one_more i some_left early none h = h
  one_more i some_left early (some all_drained) (j, above, gone, waiting) =
      (j, omega arith, gone, one_earlier i j some_left early waiting)
  one_more i some_left early (some (timed_out left)) (j, above, here, some_here, late, waiting) =
      (j, omega arith, here, some_here, late, one_earlier i j some_left early waiting)

  round-Ends :
      (i : ℕ) (rest : Option Drained)
      → ((readings i).now < deadline → Ends readings deadline (i + 1) rest)
      → Ends readings deadline i (
          if (readings i).remaining == 0
          then some all_drained
          else if leb deadline (readings i).now
          then some (timed_out (readings i).remaining)
          else rest)
  round-Ends i rest later =
      go ((readings i).remaining == 0) (leb deadline (readings i).now) refl refl
    where
      go :
          (x y : Bool)
          → ((readings i).remaining == 0) ≡ x
          → leb deadline (readings i).now ≡ y
          → Ends readings deadline i (
              if x
              then some all_drained
              else if y
              then some (timed_out (readings i).remaining)
              else rest)
      go true y e f = (i, omega arith, (==_iff (readings i).remaining 0).0 e, none_before i)
      go false true e f =
          (i, omega arith, refl, ground (arith, e), ground (arith, f), none_before i)
      go false false e f =
          one_more i (ground (arith, e)) (ground (arith, f)) rest (later (ground (arith, f)))

  drain-Ends :
      (k i : ℕ)
      → deadline ≤ (readings i).now + 100 * k
      → Ends readings deadline i (drain readings deadline (suc k) i)
  unfolding drain
  drain-Ends zero i h = round-Ends i none (λ early. absurd (omega arith))
  drain-Ends (suc k) i h =
      round-Ends i (drain readings deadline (suc k) (i + 1))
        (λ early. drain-Ends k (i + 1) (omega (arith, ticks i)))

-- How `main` stops.
abbrev pub Stopped :
    (ℕ → Reading) → ℕ → ConnectionManager → ℕ × ConnectionManager × Option (Option Drained) → Type 0
Stopped readings started manager (cancelled, after, none) =
    AllCancelled manager (cancelled, after) × (connection_count manager ≡ 0)
Stopped readings started manager (cancelled, after, some result) =
    AllCancelled manager (cancelled, after)
    × (connection_count manager ≢ 0)
    × Ends readings (started + 5000) 0 result

-- `main` cancels every connection that is registered when the server has stopped. Without any it does
-- not wait. Else, on a clock that moves on by at least 100 ms from one round to the next, the wait
-- ends within 51 rounds: in the first round that finds no connections, or in the first that is not
-- before the deadline of five seconds, with the number of those that are left.
pub stop-Stopped :
    (readings : ℕ → Reading) (started : ℕ) (manager : ConnectionManager)
    → Ticks readings
    → started ≤ (readings 0).now
    → Stopped readings started manager (stop readings started 51 manager)
unfolding stop
stop-Stopped readings started manager ticks first = go (ltb 0 (cancel_all manager).0) refl
  where
    all : AllCancelled manager (cancel_all manager)
    all = cancel_all_lem manager

    counted : (cancel_all manager).0 ≡ connection_count manager
    counted = all.2

    go :
        (b : Bool)
        → ltb 0 (cancel_all manager).0 ≡ b
        → Stopped readings started manager (
          (cancel_all manager).0,
          (cancel_all manager).1,
          if b then some (drain readings (started + 5000) 51 0) else none,
        )
    go true e = (
      all,
      λ z. ground (arith, e, counted, z),
      drain-Ends readings (started + 5000) ticks 50 0 (omega (arith, first)),
    )
    go false e = (all, ground (arith, e, counted))
