-- ===== src/Manager/Orchestrator/Tests.antt =====
-- The theorems on the orchestrator, at a success that is marked and at runs that close a task.
use autonomous_game_agent.Prelude.{true, Option, none, some, [], ◌∷◌, ◌≡◌, refl, arith}
use autonomous_game_agent.Verifier.Schemas.{success_with, FailureKind, failure_kind_value}
use autonomous_game_agent.Manager.Scheduler.{
  TaskStatus, complete_from_verifier, complete_from_manager_stop,
}
use autonomous_game_agent.Manager.Scheduler.Invariant.{IsValid}
use autonomous_game_agent.Manager.Events.{TaskCompletionEvent, task_completion_to_event}
use autonomous_game_agent.Manager.TargetRef.{skill_text}
use autonomous_game_agent.Manager.SkillRunner.Results.{SkillRunResult}
use autonomous_game_agent.Manager.Orchestrator.{Reply, reply, failure, complete_from_skill_run}
use autonomous_game_agent.Manager.Orchestrator.Closing.{
  close, call, Reported, calls_report_what_they_close,
}
use autonomous_game_agent.Manager.Orchestrator.Authority.{Closed, completion_rests_on_authority}
use autonomous_game_agent.Samples.{busy, manager, ids}

abbrev won : SkillRunResult
won = record {
  skill_result = record {
    skill_name = "continue_dialogue";
    success = true;
    evidence_ids = "shot-1" ∷ [];
    failure_reason = none;
  };
  verifier_result = some (success_with ("shot-1" ∷ []));
  verifier_event_records = [];
  verified_reward_breakdowns = [];
  reward_event_records = [];
  action_execution_results = [];
  action_event_records = [];
  manager_stop_result = none;
  manager_stop_event_record = none;
  steps = [];
  event_record = none;
}

-- the same run, stopped in an emergency after its verdict
abbrev stopped : SkillRunResult
stopped = record won {
  manager_stop_result = some (record {
    failure_kind = FailureKind.safety_intervention;
    reason = "emergency_stop";
    evidence_ids = "shot-1" ∷ [];
    trigger_event_id = none;
  });
}

abbrev status_of : Reply (Option TaskCompletionEvent) → Option TaskStatus
status_of (failure x) = none
status_of (reply none) = none
status_of (reply (some e)) = some e.status

won_succeeds :
    status_of (complete_from_skill_run ids won "task-1" manager).0 ≡ some TaskStatus.succeeded
unfolding complete_from_skill_run skill_text complete_from_verifier task_completion_to_event
won_succeeds = refl

stopped_fails :
    status_of (complete_from_skill_run ids stopped "task-1" manager).0 ≡ some TaskStatus.failed
unfolding complete_from_skill_run skill_text complete_from_manager_stop task_completion_to_event
    failure_kind_value
stopped_fails = refl

busy-IsValid : IsValid busy
busy-IsValid = record { queued = tt; current = (refl, refl, omega arith); done = tt }

calls_report_what_they_close_example : Reported ids manager (call (close won "task-1") ids manager)
calls_report_what_they_close_example =
    calls_report_what_they_close (close won "task-1") ids manager busy-IsValid

completion_rests_on_authority_example :
    Closed ids stopped "task-1" busy (complete_from_skill_run ids stopped "task-1" manager).0
completion_rests_on_authority_example = completion_rests_on_authority ids stopped "task-1" manager
