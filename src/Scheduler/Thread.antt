-- ===== src/Scheduler/Thread.antt =====
-- The scheduler thread: which events run.
use darghos_tfs04_86_v.Base.{
  ◌≡◌, refl, Bool, true, false, ◌||◌, none, List, [], ◌∷◌, mem, remove, distinct, mem-remove,
  distinct-remove, ==_iff, ap, arith, Bool-cases, inl, inr,
}
use darghos_tfs04_86_v.Scheduler.{
  is_terminated, Task, SchedulerTask, Scheduler, Handover, nothing, undefined, handed, Waiting,
  wait_result, take_top, wake,
}
use darghos_tfs04_86_v.Scheduler.Events.{ids_of, not_before, sorted, Inv}

-- What `wake` does: nothing; or something undefined, if there is no event; or it drops the first event, which was stopped; or it runs that event.
pub data Wakes (s : Scheduler) (r : Scheduler × Handover) : Type 0 where
  sleeps : r ≡ (s, nothing) → Wakes s r
  breaks : s.events ≡ [] → r ≡ (s, undefined) → Wakes s r
  drops :
      (t : SchedulerTask) (ts : List SchedulerTask)
      → s.events ≡ t ∷ ts
      → mem t.event_id s.event_ids ≡ false
      → r ≡ (record s { events = ts }, nothing)
      → Wakes s r
  runs :
      (t : SchedulerTask) (ts : List SchedulerTask)
      → s.events ≡ t ∷ ts
      → mem t.event_id s.event_ids ≡ true
      → r ≡ (
        record s { events = ts; event_ids = remove t.event_id s.event_ids },
        handed (record { expiration = none; body = t.body }),
      )
      → Wakes s r

take_top-Wakes : (s : Scheduler) (ts : List SchedulerTask) → s.events ≡ ts → Wakes s (take_top s ts)
unfolding take_top
take_top-Wakes s [] e = breaks e refl
take_top-Wakes s (t ∷ ts) e = elim (Bool-cases (mem t.event_id s.event_ids)) [
  | inl active ↦ runs t ts e active (rw active)
  | inr stopped ↦ drops t ts e stopped (rw stopped)
]

pub wake-Wakes :
    (s : Scheduler) (waiting : Waiting) (notified : Bool) → Wakes s (wake s waiting notified)
unfolding wake
wake-Wakes s waiting notified =
    elim (Bool-cases (wait_result waiting notified || is_terminated s.state)) [
      | inl back ↦ rw back (sleeps refl)
      | inr takes ↦ rw takes (take_top-Wakes s s.events refl)
    ]

Wakes-Inv : (s : Scheduler) (r : Scheduler × Handover) → Inv s → Wakes s r → Inv r.0
Wakes-Inv s r v (sleeps e) = rw e v
Wakes-Inv s r v (breaks q e) = rw e v
Wakes-Inv s r v (drops t ts q stopped e) = rw e (record {
  in_order = ground (arith, v.in_order, ap sorted q);
  events_distinct = ground (arith, v.events_distinct, ap (λ x. distinct (ids_of x)) q);
  ids_distinct = v.ids_distinct;
  queued = λ id h. ground (arith, v.queued id, ap (λ x. mem id (ids_of x)) q, ==_iff id t.event_id);
  issued = λ id h. ground (arith, v.issued id, ap (λ x. mem id (ids_of x)) q);
})
Wakes-Inv s r v (runs t ts q active e) = rw e (record {
  in_order = ground (arith, v.in_order, ap sorted q);
  events_distinct = ground (arith, v.events_distinct, ap (λ x. distinct (ids_of x)) q);
  ids_distinct = distinct-remove t.event_id s.event_ids v.ids_distinct;
  queued = λ id h. ground (
    arith,
    v.queued id,
    ap (λ x. mem id (ids_of x)) q,
    mem-remove id t.event_id s.event_ids v.ids_distinct,
  );
  issued = λ id h. ground (arith, v.issued id, ap (λ x. mem id (ids_of x)) q);
})

-- A step of the scheduler thread keeps the invariant.
pub wake-Inv :
    (s : Scheduler) (waiting : Waiting) (notified : Bool) → Inv s → Inv (wake s waiting notified).0
wake-Inv s waiting notified v = Wakes-Inv s _ v (wake-Wakes s waiting notified)

-- What is known of a task that the thread hands over.
pub record Handed (s after : Scheduler) (task : Task) : Type 0 where
  pub event : SchedulerTask
  pub same_body : task ≡ record { expiration = none; body = event.body }
  pub was_first : s.events ≡ event ∷ after.events
  pub was_active : mem event.event_id s.event_ids ≡ true
  pub first_due : not_before event.cycle after.events ≡ true
  pub not_queued : mem event.event_id (ids_of after.events) ≡ false
  pub not_active : mem event.event_id after.event_ids ≡ false

Wakes-Handed :
    (s : Scheduler) (r : Scheduler × Handover) (task : Task)
    → Inv s
    → r.1 ≡ handed task
    → Wakes s r
    → Handed s r.0 task
Wakes-Handed s r task v h (sleeps e) = cc
Wakes-Handed s r task v h (breaks q e) = cc
Wakes-Handed s r task v h (drops t ts q stopped e) = cc
Wakes-Handed s r task v h (runs t ts q active e) = record {
  event = t;
  same_body = ground arith;
  was_first = rw e q;
  was_active = active;
  first_due = rw e (ground (arith, v.in_order, ap sorted q));
  not_queued = rw e (ground (arith, v.events_distinct, ap (λ x. distinct (ids_of x)) q));
  not_active = rw e (
      ground (
        arith,
        mem-remove t.event_id t.event_id s.event_ids v.ids_distinct,
        ==_iff t.event_id t.event_id,
      ));
}

-- A task that the scheduler thread hands to the dispatcher never expires and has the body of the first
-- event of the queue, which was not stopped. This event is taken off the queue, the others stay as
-- they were, none of them is due before it, and it is neither queued nor active any more.
pub wake-Handed :
    (s : Scheduler) (waiting : Waiting) (notified : Bool) (task : Task)
    → Inv s
    → (wake s waiting notified).1 ≡ handed task
    → Handed s (wake s waiting notified).0 task
wake-Handed s waiting notified task v h = Wakes-Handed s _ task v h (wake-Wakes s waiting notified)
