-- ===== src/Scheduler/Dispatch.antt =====
-- The order in which the dispatcher calls its tasks.
use darghos_tfs04_86_v.Base.{
  ℕ, ◌≡◌, refl, ap, ◌∙◌, true, false, List, [], ◌∷◌, ◌++◌, if◌then◌else◌, length, arith, Bool-cases,
  inl, inr,
}
use darghos_tfs04_86_v.Scheduler.{
  is_terminated, is_running, Task, Dispatcher, has_expired, add_task, dispatch, flush_from, flush,
}

-- Rounds of the thread, one at each of the times.
abbrev pub rounds : List ℕ → Dispatcher → Dispatcher
rounds [] d = d
rounds (now ∷ times) d = rounds times (dispatch now d)

-- The tasks that have not expired when the round of each comes.
abbrev pub unexpired : List ℕ → List Task → List Task
unexpired times [] = []
unexpired [] (t ∷ ts) = []
unexpired (now ∷ times) (t ∷ ts) =
    if has_expired now t then unexpired times ts else t ∷ unexpired times ts

dispatch_late :
    (now : ℕ) (t : Task) (ts : List Task) (d : Dispatcher)
    → d.tasks ≡ t ∷ ts
    → is_terminated d.state ≡ false
    → has_expired now t ≡ true
    → dispatch now d ≡ record d { tasks = ts }
unfolding dispatch
dispatch_late now t ts d e live late = ground arith

dispatch_due :
    (now : ℕ) (t : Task) (ts : List Task) (d : Dispatcher)
    → d.tasks ≡ t ∷ ts
    → is_terminated d.state ≡ false
    → has_expired now t ≡ false
    → dispatch now d ≡ record d { tasks = ts; called = t.body ∷ d.called }
unfolding dispatch
dispatch_due now t ts d e live due = ground arith

flush_end :
    (ts : List Task) (t : Task) (called : List ℕ)
    → flush_from (ts ++ t ∷ []) called ≡ t.body ∷ flush_from ts called
unfolding flush_from
flush_end [] t called = refl
flush_end (u ∷ ts) t called = flush_end ts t (u.body ∷ called)

rounds_from :
    (times : List ℕ) (ts : List Task) (d : Dispatcher)
    → d.tasks ≡ ts
    → length times ≡ length ts
    → is_terminated d.state ≡ false
    → rounds times d ≡ record d { tasks = []; called = flush_from (unexpired times ts) d.called }
unfolding flush_from
rounds_from [] [] d e l live = ground arith
rounds_from (now ∷ times) [] d e l live = absurd (omega (arith, l))
rounds_from [] (t ∷ ts) d e l live = absurd (omega (arith, l))
rounds_from (now ∷ times) (t ∷ ts) d e l live = elim (Bool-cases (has_expired now t)) [
  | inl late ↦
      ap (rounds times) (dispatch_late now t ts d e live late)
      ∙ rounds_from times ts (record d { tasks = ts }) refl (omega (arith, l)) live
      ∙ rw late refl
  | inr due ↦
      ap (rounds times) (dispatch_due now t ts d e live due)
      ∙ rounds_from times ts (record d { tasks = ts; called = t.body ∷ d.called }) refl
          (omega (arith, l)) live
      ∙ rw due refl
]

-- If the dispatcher is not terminated and no task is added meanwhile, by another thread or by a task
-- that is called, then as many rounds as there are tasks, each at its own time, call the tasks that
-- have not expired when their round comes, each once and in their order, and leave no task: as
-- `flush` would do with these tasks.
pub dispatch-flush :
    (times : List ℕ) (d : Dispatcher)
    → length times ≡ length d.tasks
    → is_terminated d.state ≡ false
    → rounds times d ≡ flush (record d { tasks = unexpired times d.tasks })
unfolding flush
dispatch-flush times d l live = rounds_from times d.tasks d refl l live

-- A dispatcher that runs calls a task that was put in front before all the others, and a task that
-- was put at the end behind them.
pub add_task-flush :
    (d : Dispatcher) (t u : Task)
    → is_running d.state ≡ true
    → (flush (add_task (add_task d t false) u true)).called
      ≡ t.body ∷ flush_from d.tasks (u.body ∷ d.called)
unfolding flush add_task flush_from
add_task-flush d t u run = ground (arith, flush_end d.tasks t (u.body ∷ d.called))
