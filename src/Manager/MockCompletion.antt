-- ===== src/Manager/MockCompletion.antt =====
-- src/fh_agent/manager/mock_completion.py: a dry-run signal that a skill has ended, applied to the running task.
use autonomous_game_agent.Prelude.{
  String, Bool, not, Option, none, some, List, ◌&&◌, refl, if◌then◌else◌, str_eq, if_holds,
  option_holds,
}
use autonomous_game_agent.Manager.Events.{TaskCompletionEvent}
use autonomous_game_agent.Manager.Scheduler.{SchedulerError}
use autonomous_game_agent.Manager.Orchestrator.{
  Orchestrator, EventIds, Reply, failure, scheduler_error, task_id_mismatch, mark_success,
  mark_failure, cancel_current,
}
use autonomous_game_agent.Manager.Scheduler.Invariant.{IsValid}
use autonomous_game_agent.Manager.Orchestrator.Closing.{
  Reported, succeed, fail, abort, call, calls_report_what_they_close,
}

pub data MockCompletionStatus : Type 0 where
  succeeded failed cancelled : MockCompletionStatus

pub record MockSkillCompletionSignal : Type 0 where
  pub task_id : String
  pub status : MockCompletionStatus
  pub condition : String
  pub reason : Option String
  pub evidence_ids : List String

-- `required_strings_must_not_be_empty`: true where it returns
unfoldable pub signal_accepted : MockSkillCompletionSignal → Bool
signal_accepted s = not (str_eq s.task_id "") && not (str_eq s.condition "")

-- `signal.reason or signal.condition`
unfoldable reason_or_condition : MockSkillCompletionSignal → String
reason_or_condition s = elim s.reason [
  | none ↦ s.condition
  | some r ↦ if str_eq r "" then s.condition else r
]

-- the call of the orchestrator that the signal makes
unfoldable pub applied :
    MockSkillCompletionSignal
    → EventIds
    → Orchestrator
    → Reply (Option TaskCompletionEvent) × Orchestrator
unfolding mark_success mark_failure cancel_current reason_or_condition
applied s ids o = elim s.status [
  | MockCompletionStatus.succeeded ↦ mark_success ids s.condition s.evidence_ids o
  | MockCompletionStatus.failed ↦ mark_failure ids s.condition s.evidence_ids s.reason o
  | MockCompletionStatus.cancelled ↦ cancel_current ids (reason_or_condition s) s.evidence_ids o
]

unfoldable pub apply_mock_completion_signal :
    MockSkillCompletionSignal
    → EventIds
    → Orchestrator
    → Reply (Option TaskCompletionEvent) × Orchestrator
unfolding applied
apply_mock_completion_signal s ids o = elim o.scheduler.current_task [
  | none ↦ (failure (scheduler_error SchedulerError.no_running_task), o)
  | some t ↦
      if str_eq s.task_id t.task_spec.task_id
      then applied s ids o
      else (failure task_id_mismatch, o)
]

-- From a scheduler in a valid state a signal reports what it closes, as the calls that it makes do.
signal-Reported :
    (s : MockSkillCompletionSignal) (ids : EventIds) (o : Orchestrator)
    → IsValid o.scheduler
    → Reported ids o (apply_mock_completion_signal s ids o)
unfolding apply_mock_completion_signal applied call
signal-Reported s ids o v =
    option_holds (Reported ids o) o.scheduler.current_task (λ e. (refl, refl))
      (λ t e.
        if_holds (Reported ids o) (str_eq s.task_id t.task_spec.task_id) (λ h. at s.status)
          (λ h. (refl, refl)))
  where
    at :
        (status : MockCompletionStatus)
        → Reported ids o (elim status as (λ _. Reply (Option TaskCompletionEvent) × Orchestrator) [
          | MockCompletionStatus.succeeded ↦ mark_success ids s.condition s.evidence_ids o
          | MockCompletionStatus.failed ↦ mark_failure ids s.condition s.evidence_ids s.reason o
          | MockCompletionStatus.cancelled ↦
              cancel_current ids (reason_or_condition s) s.evidence_ids o
        ])
    at MockCompletionStatus.succeeded =
        calls_report_what_they_close (succeed s.condition s.evidence_ids) ids o v
    at MockCompletionStatus.failed =
        calls_report_what_they_close (fail s.condition s.evidence_ids s.reason) ids o v
    at MockCompletionStatus.cancelled =
        calls_report_what_they_close (abort (reason_or_condition s) s.evidence_ids) ids o v
