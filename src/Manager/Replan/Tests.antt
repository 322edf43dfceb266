-- ===== src/Manager/Replan/Tests.antt =====
-- The theorems on replanning, at a step that succeeds and a step that ends without an event.
use autonomous_game_agent.Prelude.{ℕ, zero, suc, Option, none, some, [], ◌∷◌}
use autonomous_game_agent.Game.Call.{Call, returns}
use autonomous_game_agent.Manager.Events.{TaskCompletionEvent}
use autonomous_game_agent.Manager.Replan.{
  Memory, ReplanLoopStepIds, build_replan_memory_summary, run_bounded,
}
use autonomous_game_agent.Manager.Replan.Notes.{Noted, replan_note_is_appended}
use autonomous_game_agent.Manager.Replan.Rounds.{Answered, loop_goes_on_from_verified_outcomes}
use autonomous_game_agent.Samples.{read_event}

abbrev step_ids : ReplanLoopStepIds
step_ids = record {
  task_id = "task-1";
  completion_event_id = "event-1";
  planner_output_id = none;
  planner_trace_id = none;
}

abbrev start : Memory ℕ
start = []

-- the first step succeeds, and the others have no event
abbrev run_once : Memory ℕ → ReplanLoopStepIds → ℕ → Call (Option TaskCompletionEvent) × ℕ
run_once memory i zero = (returns (some read_event), 1)
run_once memory i (suc n) = (returns none, suc n)

abbrev own : Option TaskCompletionEvent → Option TaskCompletionEvent
own e = e

replan_note_is_appended_example :
    Noted start read_event (build_replan_memory_summary start read_event)
replan_note_is_appended_example = replan_note_is_appended start read_event

loop_goes_on_from_verified_outcomes_example :
    Answered run_once own 3 start
      (run_bounded run_once own start (step_ids ∷ step_ids ∷ step_ids ∷ []) 0).0
loop_goes_on_from_verified_outcomes_example =
    loop_goes_on_from_verified_outcomes run_once own start (step_ids ∷ step_ids ∷ step_ids ∷ []) 0
