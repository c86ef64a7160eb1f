-- ===== src/Scheduler.antt =====
-- scheduler.h, scheduler.cpp, dispatcher.h and dispatcher.cpp. Times are ticks of the system clock.
-- The queue of events is kept in the order of expiration; the order of tasks that expire together,
-- which `std::priority_queue` leaves open, is that of their insertion. Each method runs under the
-- lock, and so does what the thread does between two waits, which is one step here.
pub mod Events
pub mod Thread
pub mod Dispatch
pub mod Runs
pub mod Turns
mod Tests
use darghos_tfs04_86_v.Base.{
  ℕ, ◌+◌, ◌%◌, Bool, true, false, not, ◌&&◌, ◌||◌, Option, none, some, List, [], ◌∷◌, ◌++◌, ltb,
  leb, ◌==◌, if◌then◌else◌, mem, remove, is_empty,
}

pub data ThreadState : Type 0 where
  running closing terminated : ThreadState

abbrev pub is_running : ThreadState → Bool
is_running running = true
is_running closing = false
is_running terminated = false

abbrev pub is_terminated : ThreadState → Bool
is_terminated running = false
is_terminated closing = false
is_terminated terminated = true

-- A task, which `none` as expiration never lets expire. `body` names the function to call.
pub record Task : Type 0 where
  pub expiration : Option ℕ
  pub body : ℕ

pub record SchedulerTask : Type 0 where
  pub event_id : ℕ
  pub cycle : ℕ
  pub body : ℕ

pub record Scheduler : Type 0 where
  pub state : ThreadState
  pub last_event : ℕ
  pub event_ids : List ℕ
  pub events : List SchedulerTask

-- `createSchedulerTask` at a time, with SCHEDULER_MINTICKS.
pub create_scheduler_task : ℕ → ℕ → ℕ → SchedulerTask
create_scheduler_task now delay body = record {
  event_id = 0;
  cycle = now + (if ltb delay 50 then 50 else delay);
  body = body;
}

pub push : SchedulerTask → List SchedulerTask → List SchedulerTask
push t [] = t ∷ []
push t (u ∷ us) = if ltb t.cycle u.cycle then t ∷ u ∷ us else u ∷ push t us

-- `std::set::insert`.
insert_id : ℕ → List ℕ → List ℕ
insert_id id ids = if mem id ids then ids else id ∷ ids

-- The next identifier; 0 is never one.
next_id : ℕ → ℕ
next_id last = if leb 0xFFFF_FFFF last then 1 else last + 1

-- The new identifier's part of `addEvent`.
with_id : Scheduler → SchedulerTask → Scheduler × SchedulerTask
unfolding next_id
with_id s t =
    if t.event_id == 0
    then (
      record s { last_event = next_id s.last_event },
      record t { event_id = next_id s.last_event },
    )
    else (s, t)

-- `addEvent`: the scheduler after it, and the identifier.
pub add_event : Scheduler → SchedulerTask → Scheduler × ℕ
unfolding with_id insert_id push
add_event s t =
    let (s', t') = with_id s t in
    if not (is_running s.state) then (s, t.event_id) else (
      record s' { event_ids = insert_id t'.event_id s.event_ids; events = push t' s.events },
      t'.event_id,
    )

-- `stopEvent`.
pub stop_event : Scheduler → ℕ → Scheduler × Bool
stop_event s id =
    if id == 0
    then (s, false)
    else if mem id s.event_ids
    then (record s { event_ids = remove id s.event_ids }, true)
    else (s, false)

-- How the thread waits: for a signal, if there is no event, or until the first event's time.
pub data Waiting : Type 0 where
  for_signal until_top : Waiting

pub begin_wait : Scheduler → Waiting
begin_wait s = if is_empty s.events then for_signal else until_top

-- `ret`: only a timed wait that was notified sets it.
abbrev pub wait_result : Waiting → Bool → Bool
wait_result for_signal notified = false
wait_result until_top notified = notified

-- What a step hands to the dispatcher. The wait for a signal stands in no loop: where the thread wakes
-- up although no event was added, the source calls `top` and `pop` of an empty queue, and what this
-- does is `undefined`.
pub data Handover : Type 0 where
  nothing undefined : Handover
  handed : Task → Handover

take_top : Scheduler → List SchedulerTask → Scheduler × Handover
take_top s [] = (s, undefined)
take_top s (t ∷ ts) =
    if mem t.event_id s.event_ids
    then (
      record s { events = ts; event_ids = remove t.event_id s.event_ids },
      handed (record { expiration = none; body = t.body }),
    )
    else (record s { events = ts }, nothing)

-- The rest of the loop of `schedulerThread`: the thread wakes up, by a signal or at the time, takes
-- the first event and hands its task to the dispatcher, if it was not stopped.
pub wake : Scheduler → Waiting → Bool → Scheduler × Handover
unfolding take_top
wake s waiting notified =
    if wait_result waiting notified || is_terminated s.state
    then (s, nothing)
    else take_top s s.events

pub stop : Scheduler → Scheduler
stop s = record s { state = closing }

pub shutdown : Scheduler → Scheduler
shutdown s = record s { state = terminated; events = []; event_ids = [] }

-- The dispatcher, with the bodies that it has called, the last one first.
pub record Dispatcher : Type 0 where
  pub state : ThreadState
  pub tasks : List Task
  pub called : List ℕ

-- `Task::hasExpired`.
abbrev pub has_expired : ℕ → Task → Bool
has_expired now t = elim t.expiration [ none ↦ false | some time ↦ ltb time now ]

-- `Dispatcher::addTask`.
pub add_task : Dispatcher → Task → Bool → Dispatcher
add_task d t front =
    if not (is_running d.state)
    then d
    else if front
    then record d { tasks = t ∷ d.tasks }
    else record d { tasks = d.tasks ++ t ∷ [] }

take_task : ℕ → Dispatcher → List Task → Dispatcher
take_task now d [] = d
take_task now d (t ∷ ts) =
    if has_expired now t
    then record d { tasks = ts }
    else record d { tasks = ts; called = t.body ∷ d.called }

-- One round of `dispatcherThread`, at a time.
pub dispatch : ℕ → Dispatcher → Dispatcher
unfolding take_task
dispatch now d = if is_terminated d.state then d else take_task now d d.tasks

pub flush_from : List Task → List ℕ → List ℕ
flush_from [] called = called
flush_from (t ∷ ts) called = flush_from ts (t.body ∷ called)

-- `flush` calls each task, expired or not.
pub flush : Dispatcher → Dispatcher
unfolding flush_from
flush d = record d { tasks = []; called = flush_from d.tasks d.called }

pub stop_dispatcher : Dispatcher → Dispatcher
stop_dispatcher d = record d { state = closing }

pub shutdown_dispatcher : Dispatcher → Dispatcher
unfolding flush
shutdown_dispatcher d = flush (record d { state = terminated })
