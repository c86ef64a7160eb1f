-- ===== src/Scheduler/Tests.antt =====
-- A scheduler with two events, a dispatcher with two tasks, and what the theorems say of them.
use darghos_tfs04_86_v.Base.{◌≡◌, refl, false, List, none, some, [], ◌∷◌, arith, ==_iff}
use darghos_tfs04_86_v.Scheduler.{
  running, Task, SchedulerTask, Scheduler, Dispatcher, nothing, until_top, add_event,
  create_scheduler_task, stop_event, wake, flush,
}
use darghos_tfs04_86_v.Scheduler.Events.{Inv}
use darghos_tfs04_86_v.Scheduler.Thread.{Handed, wake-Handed}
use darghos_tfs04_86_v.Scheduler.Dispatch.{rounds, unexpired, dispatch-flush}
use darghos_tfs04_86_v.Scheduler.Runs.{Request, adds, stops, wakes, run, history-Inv}
use darghos_tfs04_86_v.Scheduler.Turns.{drive, active_tasks, drive_lem}

abbrev early : SchedulerTask
early = record { event_id = 2; cycle = 100; body = 7 }

abbrev late : SchedulerTask
late = record { event_id = 1; cycle = 300; body = 8 }

abbrev two_events : Scheduler
two_events = record {
  state = running;
  last_event = 2;
  event_ids = 1 ∷ 2 ∷ [];
  events = early ∷ late ∷ [];
}

two_events-Inv : Inv two_events
two_events-Inv = record {
  in_order = refl;
  events_distinct = refl;
  ids_distinct = refl;
  queued = λ id h. ground arith;
  issued = λ id h. ground (arith, ==_iff id 1, ==_iff id 2);
}

abbrev new_event : SchedulerTask
new_event = record { event_id = 0; cycle = 200; body = 9 }

abbrev requests : List Request
requests = adds 1000 60 9 ∷ wakes until_top false ∷ stops 1 ∷ []

history-Inv_example : (after : Scheduler) × (run two_events requests ≡ some after) × Inv after
unfolding add_event create_scheduler_task wake stop_event
history-Inv_example = history-Inv two_events requests (omega arith) refl two_events-Inv

drive_lem_example : drive 2 two_events ≡ active_tasks two_events.event_ids two_events.events
drive_lem_example = drive_lem two_events two_events-Inv refl

wake-Handed_example :
    Handed two_events (wake two_events until_top false).0 (record { expiration = none; body = 7 })
unfolding wake
wake-Handed_example =
    wake-Handed two_events until_top false (record { expiration = none; body = 7 }) two_events-Inv
      refl

-- A stopped event is dropped.
stopped_event : (wake (stop_event two_events 2).0 until_top false).1 ≡ nothing
unfolding wake stop_event
stopped_event = refl

abbrev idle : Scheduler
idle = record { state = running; last_event = 0; event_ids = []; events = [] }

abbrev two_tasks : Dispatcher
two_tasks = record {
  state = running;
  tasks = record { expiration = some 50; body = 1 } ∷ record { expiration = none; body = 2 } ∷ [];
  called = [];
}

dispatch-flush_example :
    rounds (40 ∷ 60 ∷ []) two_tasks
    ≡ flush (record two_tasks { tasks = unexpired (40 ∷ 60 ∷ []) two_tasks.tasks })
dispatch-flush_example = dispatch-flush (40 ∷ 60 ∷ []) two_tasks refl refl

abbrev task : Task
task = record { expiration = none; body = 3 }
