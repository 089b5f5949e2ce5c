-- ===== src/Backend/Accepting.antt =====
-- The accept loop of `run_h3_server_quiche` and the tasks of its connections, interleaved.
use server_naive_rs.Common.{
  ℕ, suc, ◌+◌, ◌≡◌, Bool, true, false, List, [], ◌∷◌, ◌++◌, Option, none, some, if◌then◌else◌,
}

-- What the controller of a connection brings: the headers of a request, a connection's error or
-- shutdown, or another event.
pub data ServerH3Event : Type 0 where
  request_headers : ServerH3Event
  connection_error connection_shutdown : ServerH3Event
  other_event : ServerH3Event

-- A connection's task, with the number of requests that it has spawned, and whether it holds a permit.
pub record ConnTask : Type 0 where
  pub requests : ℕ
  pub permit : Bool

-- The loop on an event; `none` means that it breaks.
unfoldable pub on_event : ServerH3Event → ConnTask → Option ConnTask
on_event request_headers c = some (record c { requests = c.requests + 1 })
on_event connection_error c = none
on_event connection_shutdown c = none
on_event other_event c = some c

-- Where the accept loop is: at the listener, at the semaphore with an accepted connection, or ended.
pub data Loop : Type 0 where
  listening acquiring ended : Loop

pub record Accepting : Type 0 where
  pub loop : Loop
  pub limiter : Option ℕ
  pub tasks : List ConnTask

-- Dropping the task gives its permit back.
unfoldable pub release : ConnTask → Option ℕ → Option ℕ
release c none = none
release c (some free) = if c.permit then some (free + 1) else some free

unfoldable pub after_event :
    Accepting → List ConnTask → List ConnTask → ConnTask → Option ConnTask → Accepting
unfolding release
after_event s before after c (some c') = record s { tasks = before ++ (c' ∷ after) }
after_event s before after c none = record s {
  tasks = before ++ after;
  limiter = release c s.limiter;
}

pub data Step (s : Accepting) : Accepting → Type 0 where
  accept_error : s.loop ≡ listening → Step s s
  accepted : s.loop ≡ listening → Step s (record s { loop = acquiring })
  listener_end : s.loop ≡ listening → Step s (record s { loop = ended })
  acquire :
      (free : ℕ)
      → s.loop ≡ acquiring
      → s.limiter ≡ some (suc free)
      → Step s (record {
        loop = listening;
        limiter = some free;
        tasks = record { requests = 0; permit = true } ∷ s.tasks;
      })
  unlimited :
      s.loop ≡ acquiring
      → s.limiter ≡ none
      → Step s (record {
        loop = listening;
        limiter = none;
        tasks = record { requests = 0; permit = false } ∷ s.tasks;
      })
  event :
      (before after : List ConnTask) (c : ConnTask) (e : ServerH3Event)
      → s.tasks ≡ before ++ (c ∷ after)
      → Step s (after_event s before after c (on_event e c))
  -- The controller's channel is closed.
  closed :
      (before after : List ConnTask) (c : ConnTask)
      → s.tasks ≡ before ++ (c ∷ after)
      → Step s (after_event s before after c none)

unfoldable pub init : Option ℕ → Accepting
init limiter = record { loop = listening; limiter = limiter; tasks = [] }

pub data Reach (limiter : Option ℕ) : Accepting → Type 0 where
  start : Reach limiter (init limiter)
  later : {s t : Accepting} → Reach limiter s → Step s t → Reach limiter t
