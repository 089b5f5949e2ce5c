-- ===== src/Backend/Limits.antt =====
-- How many connections of quiche_runner.rs run at a time, and the bounds of its settings.
use server_naive_rs.Common.{
  ℕ, zero, suc, ◌+◌, ◌-◌, ◌^◌, ◌≤◌, ◌≡◌, ◌⊎◌, refl, ap, ◌∙◌, arith, Bool, true, false, ltb, lt→ltb,
  List, [], ◌∷◌, ◌++◌, length, length-append, Option, none, some, inl, inr, All, All-append,
  All-append_left, All-append_right, if◌then◌else◌,
}
use server_naive_rs.Config.{CongestionControl, ConnConfig}
use server_naive_rs.Backend.{QuicSettings, make_quiche_settings, conn_limiter}
use server_naive_rs.Backend.Accepting.{
  ConnTask, ServerH3Event, request_headers, connection_error, connection_shutdown, other_event,
  on_event, Loop, listening, acquiring, ended, Accepting, release, after_event, Step, init, Reach,
}

abbrev Holds : Bool → ConnTask → Type 0
Holds b c = c.permit ≡ b

-- With a limit, the free permits and the tasks, which all hold one, add up to it; without one, no task
-- holds any.
abbrev pub IsLimited : Option ℕ → Accepting → Type 0
IsLimited none s = (s.limiter ≡ none) × All (Holds false) s.tasks
IsLimited (some limit) s =
    (free : ℕ) × (s.limiter ≡ some free)
    × (free + length s.tasks ≡ limit)
    × All (Holds true) s.tasks

-- The tasks around one of them.
module _ (b : Bool) (before after : List ConnTask) (c : ConnTask)
    (all : All (Holds b) (before ++ (c ∷ after))) where
  own : Holds b c
  own = (All-append_right (Holds b) before (c ∷ after) all).0

  dropped : All (Holds b) (before ++ after)
  dropped =
      All-append (Holds b) before after (All-append_left (Holds b) before (c ∷ after) all)
        (All-append_right (Holds b) before (c ∷ after) all).1

  replaced : (c' : ConnTask) → c'.permit ≡ c.permit → All (Holds b) (before ++ (c' ∷ after))
  replaced c' e =
      All-append (Holds b) before (c' ∷ after) (All-append_left (Holds b) before (c ∷ after) all)
        (e ∙ own, (All-append_right (Holds b) before (c ∷ after) all).1)

length-around :
    (before after : List ConnTask) (c : ConnTask)
    → length (before ++ (c ∷ after)) ≡ suc (length (before ++ after))
length-around before after c =
    omega (arith, length-append before (c ∷ after), length-append before after)

on_event_permit :
    (e : ServerH3Event) (c c' : ConnTask) → on_event e c ≡ some c' → c'.permit ≡ c.permit
unfolding on_event
on_event_permit request_headers c c' q = cc
on_event_permit connection_error c c' q = cc
on_event_permit connection_shutdown c c' q = cc
on_event_permit other_event c c' q = cc

after_event-IsLimited :
    (limit : Option ℕ) (s : Accepting) (before after : List ConnTask) (c : ConnTask)
    (o : Option ConnTask)
    → s.tasks ≡ before ++ (c ∷ after)
    → ((c' : ConnTask) → o ≡ some c' → c'.permit ≡ c.permit)
    → IsLimited limit s
    → IsLimited limit (after_event s before after c o)
unfolding after_event release
after_event-IsLimited none s before after c none e keeps (l, all) =
    (rw l refl, dropped false before after c (rw e at all))
after_event-IsLimited none s before after c (some c') e keeps (l, all) =
    (l, replaced false before after c (rw e at all) c' (keeps c' refl))
after_event-IsLimited (some limit) s before after c none e keeps (free, l, total, all) =
    let mine : All (Holds true) (before ++ (c ∷ after)) = rw e at all in
    (
      free + 1,
      rw (l, own true before after c mine) refl,
      omega (arith, total, ap length e, length-around before after c),
      dropped true before after c mine,
    )
after_event-IsLimited (some limit) s before after c (some c') e keeps (free, l, total, all) = (
  free,
  l,
  omega (arith, total, ap length e, length-around before after c, length-around before after c'),
  replaced true before after c (rw e at all) c' (keeps c' refl),
)

-- A start with a permit takes one that is free; one without is made only where there is no limit.
acquire-IsLimited :
    (limit : Option ℕ) (s : Accepting) (free : ℕ)
    → s.limiter ≡ some (suc free)
    → IsLimited limit s
    → IsLimited limit (record {
      loop = listening;
      limiter = some free;
      tasks = record { requests = 0; permit = true } ∷ s.tasks;
    })
acquire-IsLimited none s free e (l, all) = cc
acquire-IsLimited (some limit) s free e (free', l, total, all) =
    (free, refl, ground (arith, l, e, total), (refl, all))

unlimited-IsLimited :
    (limit : Option ℕ) (s : Accepting)
    → s.limiter ≡ none
    → IsLimited limit s
    → IsLimited limit (record {
      loop = listening;
      limiter = none;
      tasks = record { requests = 0; permit = false } ∷ s.tasks;
    })
unlimited-IsLimited none s e (l, all) = (refl, (refl, all))
unlimited-IsLimited (some limit) s e (free', l, total, all) = cc

moved-IsLimited :
    (limit : Option ℕ) (s : Accepting) (loop : Loop)
    → IsLimited limit s
    → IsLimited limit (record s { loop = loop })
moved-IsLimited none s loop v = v
moved-IsLimited (some limit) s loop v = v

Step-IsLimited :
    (limit : Option ℕ) {s t : Accepting} → IsLimited limit s → Step s t → IsLimited limit t
Step-IsLimited limit v (Step.accept_error q) = v
Step-IsLimited limit {s} v (Step.accepted q) = moved-IsLimited limit s acquiring v
Step-IsLimited limit {s} v (Step.listener_end q) = moved-IsLimited limit s ended v
Step-IsLimited limit {s} v (Step.acquire free q f) = acquire-IsLimited limit s free f v
Step-IsLimited limit {s} v (Step.unlimited q f) = unlimited-IsLimited limit s f v
Step-IsLimited limit {s} v (Step.event before after c e q) =
    after_event-IsLimited limit s before after c (on_event e c) q (λ c' f. on_event_permit e c c' f)
      v
Step-IsLimited limit {s} v (Step.closed before after c q) =
    after_event-IsLimited limit s before after c none q (λ c' f. cc) v

init-IsLimited : (limit : Option ℕ) → IsLimited limit (init limit)
unfolding init
init-IsLimited none = (refl, tt)
init-IsLimited (some limit) = (limit, refl, omega arith, tt)

pub Reach-IsLimited : (limit : Option ℕ) {s : Accepting} → Reach limit s → IsLimited limit s
Reach-IsLimited limit Reach.start = init-IsLimited limit
Reach-IsLimited limit (Reach.later r step) = Step-IsLimited limit (Reach-IsLimited limit r) step

-- The accept loop can start the connection that it has accepted.
abbrev pub Proceeds : Accepting → Type 0
Proceeds s =
    (t : Accepting) × Step s t × (t.loop ≡ listening) × (length t.tasks ≡ suc (length s.tasks))

-- Where the accept loop waits for a permit, it goes on, or all permits are in use.
abbrev pub Waits : ℕ → Accepting → Loop → Type 0
Waits limit s listening = Unit
Waits limit s acquiring = Proceeds s ⊎ (length s.tasks ≡ limit)
Waits limit s ended = Unit

abbrev pub Accepts : ℕ → Accepting → Type 0
Accepts limit s = ((limit ≡ 0) ⊎ (length s.tasks ≤ limit)) × Waits limit s s.loop

-- In every interleaving of the accept loop with the connections' tasks, at most `max_connections`
-- connections run at a time, unless that is 0; and an accepted connection is started at once, unless
-- exactly `max_connections` are running.
pub Reach-Accepts :
    (config : ConnConfig) {s : Accepting}
    → Reach (conn_limiter config) s
    → Accepts config.max_connections s
unfolding conn_limiter
Reach-Accepts config {s} r = go config.max_connections (Reach-IsLimited (conn_limiter config) r)
  where
    waits :
        (limit free : ℕ) (loop : Loop)
        → s.loop ≡ loop
        → s.limiter ≡ some free
        → free + length s.tasks ≡ limit
        → Waits limit s loop
    waits limit free listening q l total = tt
    waits limit zero acquiring q l total = inr (omega (arith, total))
    waits limit (suc free) acquiring q l total = inl (_, Step.acquire free q l, refl, refl)
    waits limit free ended q l total = tt

    unlimited : (loop : Loop) → s.loop ≡ loop → s.limiter ≡ none → Waits 0 s loop
    unlimited listening q l = tt
    unlimited acquiring q l = inl (_, Step.unlimited q l, refl, refl)
    unlimited ended q l = tt

    limited :
        (n : ℕ)
        → IsLimited (if ltb 0 (suc n) then some (suc n) else none) s
        → IsLimited (some (suc n)) s
    limited n v = rw (lt→ltb 0 (suc n) (omega arith)) at v

    go : (limit : ℕ) → IsLimited (if ltb 0 limit then some limit else none) s → Accepts limit s
    go zero (l, all) = (inl refl, unlimited s.loop refl l)
    go (suc n) v =
        let (free, l, total, all) = limited n v in
        (inr (omega (arith, total)), waits (suc n) free s.loop refl l total)

-- The highest number that a variable-length integer of QUIC holds, and the most streams.
abbrev pub varint_max : ℕ
varint_max = 2 ^ 62 - 1

-- What can be sent as transport parameters, with the protocol offered.
pub record IsSendable (settings : QuicSettings) : Type 0 where
  pub protocol : settings.alpn ≡ "h3" ∷ []
  pub streams_bidi : settings.initial_max_streams_bidi ≤ 2 ^ 60
  pub streams_uni : settings.initial_max_streams_uni ≤ 2 ^ 60
  pub data_total : settings.initial_max_data ≤ varint_max
  pub window_local : settings.initial_max_stream_data_bidi_local ≤ settings.initial_max_data
  pub window_remote : settings.initial_max_stream_data_bidi_remote ≤ settings.initial_max_data
  pub window_uni : settings.initial_max_stream_data_uni ≤ settings.initial_max_data

-- Whatever the congestion control, the settings offer HTTP/3 alone, keep within QUIC's limits on
-- streams and on integers, and give no stream a larger window than the connection.
pub make_quiche_settings-IsSendable :
    (cc : CongestionControl) → IsSendable (make_quiche_settings cc)
unfolding make_quiche_settings
make_quiche_settings-IsSendable cc = record {
  protocol = refl;
  streams_bidi = omega arith;
  streams_uni = omega arith;
  data_total = omega arith;
  window_local = omega arith;
  window_remote = omega arith;
  window_uni = omega arith;
}
