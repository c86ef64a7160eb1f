-- ===== src/Scheduler/Runs.antt =====
-- Sequences of requests to the scheduler and steps of its thread.
use darghos_tfs04_86_v.Base.{
  ℕ, ◌+◌, ◌≤◌, ◌<◌, ◌≡◌, refl, Bool, true, false, not, ◌&&◌, Option, none, some, List, [], ◌∷◌,
  length, is_empty, arith, if◌then◌else◌,
}
use darghos_tfs04_86_v.Scheduler.{
  Scheduler, create_scheduler_task, add_event, stop_event, Handover, nothing, undefined, handed,
  Waiting, wake, with_id, next_id,
}
use darghos_tfs04_86_v.Scheduler.Events.{Inv, add_event-Inv, stop_event-Inv}
use darghos_tfs04_86_v.Scheduler.Thread.{Wakes, sleeps, breaks, drops, runs, wake-Wakes, wake-Inv}

-- An event is added at a time with a delay and a body, an event is stopped, or the thread wakes up.
pub data Request : Type 0 where
  adds : (now delay body : ℕ) → Request
  stops : ℕ → Request
  wakes : Waiting → Bool → Request

-- The scheduler after a request, and whether what happens is defined.
abbrev pub is_defined : Handover → Bool
is_defined nothing = true
is_defined undefined = false
is_defined (handed task) = true

abbrev pub perform : Scheduler → Request → Scheduler × Bool
perform s (adds now delay body) = ((add_event s (create_scheduler_task now delay body)).0, true)
perform s (stops id) = ((stop_event s id).0, true)
perform s (wakes waiting notified) =
    ((wake s waiting notified).0, is_defined (wake s waiting notified).1)

-- None from the first step on that is undefined.
abbrev pub run : Scheduler → List Request → Option Scheduler
run s [] = some s
run s (r ∷ rs) = let after = run (perform s r).0 rs in if (perform s r).1 then after else none

-- The thread wakes up only where events are queued.
abbrev has_events : Scheduler → Request → Bool
has_events s (adds now delay body) = true
has_events s (stops id) = true
has_events s (wakes waiting notified) = not (is_empty s.events)

abbrev pub wakes_on_events : Scheduler → List Request → Bool
wakes_on_events s [] = true
wakes_on_events s (r ∷ rs) = has_events s r && wakes_on_events (perform s r).0 rs

Wakes-last_event :
    (s : Scheduler) (r : Scheduler × Handover) → Wakes s r → r.0.last_event ≡ s.last_event
Wakes-last_event s r (sleeps e) = rw e refl
Wakes-last_event s r (breaks q e) = rw e refl
Wakes-last_event s r (drops t ts q stopped e) = rw e refl
Wakes-last_event s r (runs t ts q active e) = rw e refl

Wakes-is_defined :
    (s : Scheduler) (r : Scheduler × Handover)
    → Wakes s r
    → is_empty s.events ≡ false
    → is_defined r.1 ≡ true
Wakes-is_defined s r (sleeps e) h = rw e refl
Wakes-is_defined s r (breaks q e) h = absurd (ground (arith, q, h))
Wakes-is_defined s r (drops t ts q stopped e) h = rw e refl
Wakes-is_defined s r (runs t ts q active e) h = rw e refl

perform-last_event :
    (s : Scheduler) (r : Request)
    → s.last_event < 0xFFFF_FFFF
    → ((perform s r).0.last_event ≤ s.last_event + 1) × (s.last_event ≤ (perform s r).0.last_event)
unfolding add_event with_id next_id create_scheduler_task stop_event
perform-last_event s (adds now delay body) h = ground arith
perform-last_event s (stops id) h = ground arith
perform-last_event s (wakes waiting notified) h =
    ground (arith, Wakes-last_event s _ (wake-Wakes s waiting notified))

perform-is_defined : (s : Scheduler) (r : Request) → has_events s r ≡ true → (perform s r).1 ≡ true
perform-is_defined s (adds now delay body) h = refl
perform-is_defined s (stops id) h = refl
perform-is_defined s (wakes waiting notified) h =
    Wakes-is_defined s _ (wake-Wakes s waiting notified) (ground (arith, h))

perform-Inv :
    (s : Scheduler) (r : Request) → s.last_event < 0xFFFF_FFFF → Inv s → Inv (perform s r).0
unfolding create_scheduler_task
perform-Inv s (adds now delay body) h v =
    add_event-Inv s (create_scheduler_task now delay body) refl h v
perform-Inv s (stops id) h v = stop_event-Inv s id v
perform-Inv s (wakes waiting notified) h v = wake-Inv s waiting notified v

-- As long as the identifiers cannot run out, every sequence of additions, stops and steps of the
-- thread in which the thread wakes up only while events are queued is defined and keeps the
-- invariant: the queue is in order, no identifier is used twice, each active one is queued, and
-- each queued one has been issued.
pub history-Inv :
    (s : Scheduler) (rs : List Request)
    → s.last_event + length rs < 0xFFFF_FFFF
    → wakes_on_events s rs ≡ true
    → Inv s
    → (after : Scheduler) × (run s rs ≡ some after) × Inv after
history-Inv s [] h on v = (s, refl, v)
history-Inv s (r ∷ rs) h on v =
    let (after, e, kept) =
      history-Inv (perform s r).0 rs (omega (arith, perform-last_event s r (omega arith)))
        (ground (arith, on)) (perform-Inv s r (omega arith) v) in
    (after, rw (perform-is_defined s r (ground (arith, on))) e, kept)
