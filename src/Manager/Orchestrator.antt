-- ===== src/Manager/Orchestrator.antt =====
-- src/fh_agent/manager/orchestrator.py: the scheduler behind the methods that report a completion, with
-- its event sink. `submit_planner_output` is in `Intake`, on the task that the Task Manager makes.
-- A method returns its answer, an error that it raises, and the orchestrator after it. Between
-- `scheduler` and `sink` a method that raises may leave the first changed.
pub mod Closing
pub mod Authority
mod Tests
use autonomous_game_agent.Prelude.{
  ℕ, String, Bool, true, false, not, Option, none, some, List, [], ◌∷◌, ◌++◌, if◌then◌else◌, str_eq,
  last?,
}
use autonomous_game_agent.Verifier.Schemas.{VerifierResult}
use autonomous_game_agent.Manager.TargetRef.{skill_text}
use autonomous_game_agent.Manager.Task.{TaskSpec, ManagerStopResult}
use autonomous_game_agent.Manager.EventLog.{EventRecord}
use autonomous_game_agent.Manager.Scheduler.{
  Scheduler, ScheduledTask, TaskCompletion, SchedulerError, Answer, ok, error, new_scheduler,
  completed,
}
use autonomous_game_agent.Manager.Scheduler
use autonomous_game_agent.Manager.Events.{
  TaskCompletionEvent, Sink, task_completion_to_event, record_task_completion,
}
use autonomous_game_agent.Manager.SkillRunner.Results.{SkillRunResult}

pub record Orchestrator : Type 0 where
  pub scheduler : Scheduler
  pub event_sink : Option Sink

pub data OrchestratorError : Type 0 where
  scheduler_error : SchedulerError → OrchestratorError
  task_id_mismatch skill_name_mismatch invalid_event : OrchestratorError

pub data Reply (A : Type 0) : Type 0 where
  reply : A → Reply A
  failure : OrchestratorError → Reply A

-- The names of an event, with the time that the caller gave or the clock's.
pub record EventIds : Type 0 where
  pub run_id : String
  pub event_id : String
  pub created_at : String

-- `_record_task_completion`
unfoldable pub record_if_sink : TaskCompletionEvent → Option Sink → Option Sink
unfolding record_task_completion
record_if_sink e none = none
record_if_sink e (some sink) = some (record_task_completion e sink)

-- `task_completion_to_event`, then `_record_task_completion`, after the scheduler's step
unfoldable pub publish :
    EventIds
    → TaskCompletion
    → Scheduler
    → Orchestrator
    → Reply (Option TaskCompletionEvent) × Orchestrator
unfolding record_if_sink
publish ids c s o = elim (task_completion_to_event c ids.run_id ids.event_id ids.created_at) [
  | none ↦ (failure invalid_event, record o { scheduler = s })
  | some e ↦ (reply (some e), record { scheduler = s; event_sink = record_if_sink e o.event_sink })
]

-- what a method does with the scheduler's answer
unfoldable pub report :
    EventIds
    → Answer (Option TaskCompletion) × Scheduler
    → Orchestrator
    → Reply (Option TaskCompletionEvent) × Orchestrator
unfolding publish
report ids (error x, s) o = (failure (scheduler_error x), record o { scheduler = s })
report ids (ok none, s) o = (reply none, record o { scheduler = s })
report ids (ok (some c), s) o = publish ids c s o

unfoldable pub start_next : Orchestrator → Option ScheduledTask × Orchestrator
start_next o = let (t, s) = Scheduler.start_next o.scheduler in (t, record o { scheduler = s })

-- the completion of a ticked task, if it has one
abbrev pub completion_of_tick :
    Answer (Option ScheduledTask) × Scheduler → Answer (Option TaskCompletion) × Scheduler
completion_of_tick (error x, s) = (error x, s)
completion_of_tick (ok none, s) = (ok none, s)
completion_of_tick (ok (some t), s) = (ok t.completion, s)

unfoldable pub tick : EventIds → Orchestrator → Reply (Option TaskCompletionEvent) × Orchestrator
unfolding report
tick ids o = report ids (completion_of_tick (Scheduler.tick o.scheduler)) o

unfoldable pub mark_success :
    EventIds
    → String
    → List String
    → Orchestrator
    → Reply (Option TaskCompletionEvent) × Orchestrator
unfolding report
mark_success ids condition evidence_ids o =
    report ids (completed (Scheduler.mark_success condition evidence_ids o.scheduler)) o

unfoldable pub mark_failure :
    EventIds
    → String
    → List String
    → Option String
    → Orchestrator
    → Reply (Option TaskCompletionEvent) × Orchestrator
unfolding report
mark_failure ids condition evidence_ids reason o =
    report ids (completed (Scheduler.mark_failure condition evidence_ids reason o.scheduler)) o

unfoldable pub cancel_current :
    EventIds
    → String
    → List String
    → Orchestrator
    → Reply (Option TaskCompletionEvent) × Orchestrator
unfolding report
cancel_current ids reason evidence_ids o =
    report ids (completed (Scheduler.cancel_current reason evidence_ids o.scheduler)) o

-- the event ID of the Manager stop's record, if there is one
abbrev pub record_id : Option EventRecord → Option String
record_id none = none
record_id (some e) = some e.event_id

-- The answer of the scheduler to the run of a skill: the Manager stop speaks first, the verdict only
-- where there is no stop, and a run with neither closes nothing.
unfoldable pub authority :
    Option ManagerStopResult
    → Option VerifierResult
    → SkillRunResult
    → Scheduler
    → Answer (Option TaskCompletion) × Scheduler
authority (some stop) verdict r s =
    completed (Scheduler.complete_from_manager_stop stop (record_id r.manager_stop_event_record) s)
authority none none r s = (ok none, s)
authority none (some v) r s =
    Scheduler.complete_from_verifier v (record_id (last? r.verifier_event_records)) s

-- the guards of `complete_from_skill_run`: the error that one raises
unfoldable pub mismatch : SkillRunResult → String → Option ScheduledTask → Option OrchestratorError
mismatch r task_id none = some (scheduler_error SchedulerError.no_running_task)
mismatch r task_id (some current) =
    if not (str_eq task_id current.task_spec.task_id)
    then some task_id_mismatch
    else if not (str_eq r.skill_result.skill_name (skill_text current.task_spec.selected_skill))
    then some skill_name_mismatch
    else none

unfoldable pub complete_from_skill_run :
    EventIds
    → SkillRunResult
    → String
    → Orchestrator
    → Reply (Option TaskCompletionEvent) × Orchestrator
unfolding mismatch authority report
complete_from_skill_run ids r task_id o = elim (mismatch r task_id o.scheduler.current_task) [
  | some x ↦ (failure x, o)
  | none ↦ report ids (authority r.manager_stop_result r.verifier_result r o.scheduler) o
]
