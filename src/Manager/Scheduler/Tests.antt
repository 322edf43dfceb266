-- ===== src/Manager/Scheduler/Tests.antt =====
-- The theorems on the scheduler, at a task that is submitted, started and timed out.
use autonomous_game_agent.Prelude.{none, List, [], ◌∷◌, ◌≡◌, refl}
use autonomous_game_agent.Prelude.Ids.{contains}
use autonomous_game_agent.Manager.Task.{fields_accepted}
use autonomous_game_agent.Manager.Scheduler.{new_scheduler, mark_success}
use autonomous_game_agent.Manager.Scheduler.Steps.{
  Op, submit, start, time, succeed, step, run, raises,
}
use autonomous_game_agent.Manager.Scheduler.Invariant.{IsValid, run-IsValid}
use autonomous_game_agent.Manager.Scheduler.Fifo.{history, run-history, raise_changes_nothing}
use autonomous_game_agent.Manager.Scheduler.Lifecycle.{ticks, ticks_time_out, timed_out_task}
use autonomous_game_agent.Samples.{dialogue_task, busy, running_task}

abbrev calls : List Op
calls = submit dialogue_task ∷ submit dialogue_task ∷ start ∷ time ∷ time ∷ start ∷ []

run-IsValid_example : IsValid (run calls new_scheduler)
unfolding fields_accepted
run-IsValid_example =
    run-IsValid calls new_scheduler (refl, (refl, (tt, (tt, (tt, (tt, tt))))))
      (record { queued = tt; current = tt; done = tt })

run-history_example : history (run calls new_scheduler) ≡ dialogue_task ∷ dialogue_task ∷ []
run-history_example = run-history calls new_scheduler

raise_changes_nothing_example : step (succeed "won" []) busy ≡ busy
unfolding raises mark_success contains
raise_changes_nothing_example = raise_changes_nothing (succeed "won" []) busy refl

ticks_time_out_example :
    ticks 2 busy
    ≡ record { queue = []; current_task = none; completed_tasks = timed_out_task running_task ∷ [] }
ticks_time_out_example = ticks_time_out 1 busy running_task refl refl
