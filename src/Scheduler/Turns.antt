-- ===== src/Scheduler/Turns.antt =====
-- The turns of the events: a thread that takes one event after the other.
use darghos_tfs04_86_v.Base.{
  ℕ, zero, suc, ◌≡◌, refl, ◌∙◌, true, false, none, List, [], ◌∷◌, mem, remove, length, distinct,
  mem-remove, if◌then◌else◌, ==_iff, ap, subst, arith, Bool-cases, inl, inr,
}
use darghos_tfs04_86_v.Scheduler.{
  is_terminated, Task, SchedulerTask, Scheduler, Handover, nothing, undefined, handed, until_top,
  take_top, wake,
}
use darghos_tfs04_86_v.Scheduler.Events.{ids_of, Inv}
use darghos_tfs04_86_v.Scheduler.Thread.{wake-Inv}

-- Steps of the thread, each when the time of the first event has come, and the tasks handed over.
abbrev pub drive : ℕ → Scheduler → List Task
drive zero s = []
drive (suc n) s =
    let r = wake s until_top false in
    let rest = drive n r.0 in
    elim r.1 [ nothing ↦ rest | undefined ↦ rest | handed task ↦ task ∷ rest ]

-- The tasks of the events that are active.
abbrev pub active_tasks : List ℕ → List SchedulerTask → List Task
active_tasks ids [] = []
active_tasks ids (t ∷ ts) =
    if mem t.event_id ids
    then record { expiration = none; body = t.body } ∷ active_tasks ids ts
    else active_tasks ids ts

active_tasks-remove :
    (ids : List ℕ) (id : ℕ) (ts : List SchedulerTask)
    → distinct ids ≡ true
    → mem id (ids_of ts) ≡ false
    → active_tasks (remove id ids) ts ≡ active_tasks ids ts
active_tasks-remove ids id [] d h = refl
active_tasks-remove ids id (t ∷ ts) d h = ground (
  arith,
  active_tasks-remove ids id ts,
  mem-remove t.event_id id ids d,
  ==_iff t.event_id id,
  ==_iff id t.event_id,
)

wake-active :
    (s : Scheduler) (t : SchedulerTask) (ts : List SchedulerTask)
    → s.events ≡ t ∷ ts
    → is_terminated s.state ≡ false
    → mem t.event_id s.event_ids ≡ true
    → wake s until_top false ≡ (
      record s { events = ts; event_ids = remove t.event_id s.event_ids },
      handed (record { expiration = none; body = t.body }),
    )
unfolding wake take_top
wake-active s t ts e up active = rw (wake, up, e, take_top, active) refl

wake-stopped :
    (s : Scheduler) (t : SchedulerTask) (ts : List SchedulerTask)
    → s.events ≡ t ∷ ts
    → is_terminated s.state ≡ false
    → mem t.event_id s.event_ids ≡ false
    → wake s until_top false ≡ (record s { events = ts }, nothing)
unfolding wake take_top
wake-stopped s t ts e up stopped = rw (wake, up, e, take_top, stopped) refl

abbrev driven : ℕ → Scheduler × Handover → List Task
driven n r = elim r.1 [
  | nothing ↦ drive n r.0
  | undefined ↦ drive n r.0
  | handed task ↦ task ∷ drive n r.0
]

drive-wake :
    (n : ℕ) (s : Scheduler) (r : Scheduler × Handover)
    → wake s until_top false ≡ r
    → drive (suc n) s ≡ driven n r
drive-wake n s r e = subst (λ r'. drive (suc n) s ≡ driven n r') e refl

drive-active_tasks :
    (ts : List SchedulerTask) (s : Scheduler)
    → s.events ≡ ts
    → Inv s
    → is_terminated s.state ≡ false
    → drive (length ts) s ≡ active_tasks s.event_ids ts
drive-active_tasks [] s e v up = refl
drive-active_tasks (t ∷ ts) s e v up = elim (Bool-cases (mem t.event_id s.event_ids)) [
  | inl active ↦
      let step = wake-active s t ts e up active in
      let after = subst (λ r. Inv r.0) step (wake-Inv s until_top false v) in
      let apart : mem t.event_id (ids_of ts) ≡ false =
        ground (arith, v.events_distinct, ap (λ x. distinct (ids_of x)) e) in
      drive-wake (length ts) s _ step
      ∙ rw active (
          ap (◌∷◌ (record { expiration = none; body = t.body })) (
            drive-active_tasks ts _ refl after up
            ∙ active_tasks-remove s.event_ids t.event_id ts v.ids_distinct apart))
  | inr stopped ↦
      let step = wake-stopped s t ts e up stopped in
      let after = subst (λ r. Inv r.0) step (wake-Inv s until_top false v) in
      drive-wake (length ts) s _ step ∙ rw stopped (drive-active_tasks ts _ refl after up)
]

-- Once its time has come, every active event gets its turn: if the scheduler is not terminated, as
-- many steps of the thread as events are queued hand over the tasks of all active events, each once,
-- in the order of the queue, and no others.
pub drive_lem :
    (s : Scheduler)
    → Inv s
    → is_terminated s.state ≡ false
    → drive (length s.events) s ≡ active_tasks s.event_ids s.events
drive_lem s v up = drive-active_tasks s.events s refl v up
