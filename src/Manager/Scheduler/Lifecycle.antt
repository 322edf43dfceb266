-- ===== src/Manager/Scheduler/Lifecycle.antt =====
-- A running task that nothing else ends is timed out by the clock, at its timeout and not before.
use autonomous_game_agent.Prelude.{
  ℕ, zero, suc, ◌+◌, ◌<◌, none, some, [], ◌∷◌, ◌++◌, ◌≡◌, refl, ap, ◌∙◌, arith,
}
use autonomous_game_agent.Manager.Scheduler.{
  TaskStatus, ScheduledTask, Scheduler, completion_of, plain, tick, tick_task,
}

-- `n` calls of `tick`
pub ticks : ℕ → Scheduler → Scheduler
ticks zero s = s
ticks (suc n) s = ticks n (tick s).1

-- The task as the timeout leaves it.
abbrev pub timed_out_task : ScheduledTask → ScheduledTask
timed_out_task t =
    let full : ScheduledTask = record t { elapsed_steps = t.task_spec.timeout_steps } in
    record full {
      status = TaskStatus.timed_out;
      completion =
          some (completion_of full (plain TaskStatus.timed_out "timeout" [] (some "timeout")));
    }

module _ (s : Scheduler) (t : ScheduledTask) (at : s.current_task ≡ some t) where
  tick_early :
      t.elapsed_steps + 1 < t.task_spec.timeout_steps
      → (tick s).1
        ≡ record s { current_task = some (record t { elapsed_steps = t.elapsed_steps + 1 }) }
  unfolding tick tick_task
  tick_early h = ground arith

  tick_due :
      t.elapsed_steps + 1 ≡ t.task_spec.timeout_steps
      → (tick s).1 ≡ record s {
        current_task = none;
        completed_tasks = s.completed_tasks ++ timed_out_task t ∷ [];
      }
  unfolding tick tick_task
  tick_due h = ground arith

abbrev running_at : Scheduler → ScheduledTask → ℕ → Scheduler
running_at s t k = record s { current_task = some (record t { elapsed_steps = k }) }

-- While fewer ticks than its remaining time have passed a task keeps running, with one elapsed step for
-- each tick.
pub ticks_early :
    (n : ℕ) (s : Scheduler) (t : ScheduledTask)
    → s.current_task ≡ some t
    → t.elapsed_steps + n < t.task_spec.timeout_steps
    → ticks n s
      ≡ record s { current_task = some (record t { elapsed_steps = t.elapsed_steps + n }) }
unfolding ticks
ticks_early zero s t at h = ground arith
ticks_early (suc n) s t at h = rw (tick_early s t at (omega arith)) (
    ticks_early n
      (record s { current_task = some (record t { elapsed_steps = t.elapsed_steps + 1 }) })
      (record t { elapsed_steps = t.elapsed_steps + 1 }) refl (omega arith)
    ∙ ap (running_at s t) (omega arith))

-- A running task is timed out by exactly as many ticks as its timeout leaves it, with its full timeout
-- as elapsed steps, and the scheduler is free again.
pub ticks_time_out :
    (n : ℕ) (s : Scheduler) (t : ScheduledTask)
    → s.current_task ≡ some t
    → t.elapsed_steps + suc n ≡ t.task_spec.timeout_steps
    → ticks (suc n) s ≡ record s {
      current_task = none;
      completed_tasks = s.completed_tasks ++ timed_out_task t ∷ [];
    }
unfolding ticks
ticks_time_out zero s t at h = tick_due s t at (omega arith)
ticks_time_out (suc n) s t at h = rw (tick_early s t at (omega arith)) (
    ticks_time_out n
      (record s { current_task = some (record t { elapsed_steps = t.elapsed_steps + 1 }) })
      (record t { elapsed_steps = t.elapsed_steps + 1 }) refl (omega arith))
