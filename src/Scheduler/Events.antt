-- ===== src/Scheduler/Events.antt =====
-- The scheduler's events, their order and their identifiers.
use darghos_tfs04_86_v.Base.{
  ℕ, ◌+◌, ◌≤◌, ◌<◌, ◌≡◌, ◌≢◌, refl, Bool, true, false, ◌&&◌, ◌||◌, List, [], ◌∷◌, mem, remove,
  distinct, mem-remove, distinct-remove, leb, ◌==◌, ==_iff, arith, Bool-cases, inl, inr,
}
use darghos_tfs04_86_v.Scheduler.{is_running, SchedulerTask, Scheduler, push, add_event, stop_event}

abbrev pub ids_of : List SchedulerTask → List ℕ
ids_of [] = []
ids_of (t ∷ ts) = t.event_id ∷ ids_of ts

-- No task of the list is due before the time.
abbrev pub not_before : ℕ → List SchedulerTask → Bool
not_before time [] = true
not_before time (t ∷ ts) = leb time t.cycle && not_before time ts

abbrev pub sorted : List SchedulerTask → Bool
sorted [] = true
sorted (t ∷ ts) = not_before t.cycle ts && sorted ts

pub record Inv (s : Scheduler) : Type 0 where
  pub in_order : sorted s.events ≡ true
  pub events_distinct : distinct (ids_of s.events) ≡ true
  pub ids_distinct : distinct s.event_ids ≡ true
  pub queued : (id : ℕ) → mem id s.event_ids ≡ true → mem id (ids_of s.events) ≡ true
  pub issued : (id : ℕ) → mem id (ids_of s.events) ≡ true → (id ≢ 0) × (id ≤ s.last_event)

not_before-push :
    (time : ℕ) (t : SchedulerTask) (ts : List SchedulerTask)
    → not_before time (push t ts) ≡ (leb time t.cycle && not_before time ts)
unfolding push
not_before-push time t [] = refl
not_before-push time t (u ∷ us) = ground (arith, not_before-push time t us)

not_before_trans :
    (a b : ℕ) (ts : List SchedulerTask) → a ≤ b → not_before b ts ≡ true → not_before a ts ≡ true
not_before_trans a b [] h k = refl
not_before_trans a b (t ∷ ts) h k = ground (arith, not_before_trans a b ts)

sorted-push :
    (t : SchedulerTask) (ts : List SchedulerTask) → sorted ts ≡ true → sorted (push t ts) ≡ true
unfolding push
sorted-push t [] h = refl
sorted-push t (u ∷ us) h =
    ground
      (arith, sorted-push t us, not_before-push u.cycle t us, not_before_trans t.cycle u.cycle us)

mem-push :
    (id : ℕ) (t : SchedulerTask) (ts : List SchedulerTask)
    → mem id (ids_of (push t ts)) ≡ (id == t.event_id || mem id (ids_of ts))
unfolding push
mem-push id t [] = refl
mem-push id t (u ∷ us) = ground (arith, mem-push id t us)

distinct-push_new :
    (t : SchedulerTask) (ts : List SchedulerTask)
    → mem t.event_id (ids_of ts) ≡ false
    → distinct (ids_of ts) ≡ true
    → distinct (ids_of (push t ts)) ≡ true
unfolding push
distinct-push_new t [] h k = refl
distinct-push_new t (u ∷ us) h k = ground (
  arith,
  distinct-push_new t us,
  mem-push u.event_id t us,
  ==_iff t.event_id u.event_id,
  ==_iff u.event_id t.event_id,
)

abbrev issued_task : Scheduler → SchedulerTask → SchedulerTask
issued_task s t = record t { event_id = s.last_event + 1 }

unissued :
    (s : Scheduler)
    → Inv s
    → (mem (s.last_event + 1) (ids_of s.events) ≡ false)
      × (mem (s.last_event + 1) s.event_ids ≡ false)
unissued s v = elim (Bool-cases (mem (s.last_event + 1) (ids_of s.events))) [
  | inl old ↦ absurd (omega (arith, (v.issued (s.last_event + 1) old).1))
  | inr new ↦ (new, ground (arith, v.queued (s.last_event + 1)))
]

add_event_new :
    (s : Scheduler) (t : SchedulerTask)
    → t.event_id ≡ 0
    → s.last_event < 0xFFFF_FFFF
    → is_running s.state ≡ true
    → Inv s
    → add_event s t ≡ (
      record s {
        last_event = s.last_event + 1;
        event_ids = (s.last_event + 1) ∷ s.event_ids;
        events = push (issued_task s t) s.events;
      },
      s.last_event + 1,
    )
unfolding add_event
add_event_new s t new room run v = ground (arith, unissued s v)

issued-Inv :
    (s : Scheduler) (t : SchedulerTask)
    → Inv s
    → Inv (record s {
      last_event = s.last_event + 1;
      event_ids = (s.last_event + 1) ∷ s.event_ids;
      events = push (issued_task s t) s.events;
    })
issued-Inv s t v = record {
  in_order = sorted-push (issued_task s t) s.events v.in_order;
  events_distinct = distinct-push_new (issued_task s t) s.events (unissued s v).0 v.events_distinct;
  ids_distinct = ground (arith, unissued s v, v.ids_distinct);
  queued = λ id h. ground (arith, mem-push id (issued_task s t) s.events, v.queued id);
  issued = λ id h.
      ground
        (arith, mem-push id (issued_task s t) s.events, v.issued id, ==_iff id (s.last_event + 1));
}

-- While the identifiers have not run out, adding an event that has no identifier keeps the
-- invariant: the queue is in order, no identifier is used twice, and each active one is queued.
pub add_event-Inv :
    (s : Scheduler) (t : SchedulerTask)
    → t.event_id ≡ 0
    → s.last_event < 0xFFFF_FFFF
    → Inv s
    → Inv (add_event s t).0
add_event-Inv s t new room v = elim (Bool-cases (is_running s.state)) [
  | inl run ↦ rw (add_event_new s t new room run v) (issued-Inv s t v)
  | inr idle ↦ unfold add_event in rw idle v
]

removed-Inv :
    (s : Scheduler) (id : ℕ) → Inv s → Inv (record s { event_ids = remove id s.event_ids })
removed-Inv s id v = record {
  in_order = v.in_order;
  events_distinct = v.events_distinct;
  ids_distinct = distinct-remove id s.event_ids v.ids_distinct;
  queued =
      λ other h. ground (arith, mem-remove other id s.event_ids v.ids_distinct, v.queued other);
  issued = v.issued;
}

-- Stopping an event keeps the invariant: the queue is in order, no identifier is used twice, and each
-- active one is queued.
pub stop_event-Inv : (s : Scheduler) (id : ℕ) → Inv s → Inv (stop_event s id).0
unfolding stop_event
stop_event-Inv s id v = elim (Bool-cases (id == 0)) [
  | inl no_id ↦ rw no_id v
  | inr real ↦ elim (Bool-cases (mem id s.event_ids)) [
    | inl active ↦ rw (real, active) (removed-Inv s id v)
    | inr stopped ↦ rw (real, stopped) v
  ]
]
