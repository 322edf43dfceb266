-- ===== src/Manager/Events.antt =====
-- src/fh_agent/manager/task_events.py and event_sink.py.
use autonomous_game_agent.Prelude.{
  ℕ, String, Bool, not, Option, none, some, List, [], ◌∷◌, ◌++◌, map, ◌&&◌, str_eq, ltb,
  if◌then◌else◌,
}
use autonomous_game_agent.Verifier.Schemas.{VerifierResult}
use autonomous_game_agent.Manager.Reward.{RewardTerm, term_text}
use autonomous_game_agent.Manager.TargetRef.{GroundedTarget, skill_text}
use autonomous_game_agent.Manager.Task.{ManagerStopResult, is_blank_id}
use autonomous_game_agent.Manager.Scheduler.{TaskStatus, TaskCompletion}

pub record TaskCompletionEvent : Type 0 where
  pub event_id : String
  pub run_id : String
  pub task_id : String
  pub selected_skill : String
  pub goal : String
  pub target : Option GroundedTarget
  pub status : TaskStatus
  pub condition : String
  pub reason : Option String
  pub elapsed_steps : ℕ
  pub timeout_steps : ℕ
  pub planner_output_id : Option String
  pub planner_trace_id : Option String
  pub source_evidence_ids : List String
  pub completion_evidence_ids : List String
  pub reward_terms : List String
  pub verifier_result : Option VerifierResult
  pub verifier_event_id : Option String
  pub manager_stop_result : Option ManagerStopResult
  pub manager_stop_event_id : Option String
  pub created_at : String

-- the field constraints and validators: true where they hold
unfoldable pub event_accepted : TaskCompletionEvent → Bool
event_accepted e =
    not (str_eq e.event_id "")
    && not (str_eq e.run_id "")
    && not (str_eq e.task_id "")
    && not (str_eq e.selected_skill "")
    && not (str_eq e.goal "")
    && not (str_eq e.condition "")
    && ltb 0 e.timeout_steps
    && not (is_blank_id e.verifier_event_id)
    && not (is_blank_id e.manager_stop_event_id)

abbrev term_name_text : RewardTerm → String
term_name_text t = term_text t.name

-- the fields of the event of a completion
abbrev pub event_of : TaskCompletion → String → String → String → TaskCompletionEvent
event_of c run_id event_id created_at = record {
  event_id = event_id;
  run_id = run_id;
  task_id = c.task_id;
  selected_skill = skill_text c.task_spec.selected_skill;
  goal = c.task_spec.goal;
  target = c.task_spec.target;
  status = c.status;
  condition = c.condition;
  reason = c.reason;
  elapsed_steps = c.elapsed_steps;
  timeout_steps = c.task_spec.timeout_steps;
  planner_output_id = c.task_spec.planner_output_id;
  planner_trace_id = c.task_spec.planner_trace_id;
  source_evidence_ids = c.task_spec.source_evidence_ids;
  completion_evidence_ids = c.evidence_ids;
  reward_terms = map term_name_text c.task_spec.reward_profile.terms;
  verifier_result = c.verifier_result;
  verifier_event_id = c.verifier_event_id;
  manager_stop_result = c.manager_stop_result;
  manager_stop_event_id = c.manager_stop_event_id;
  created_at = created_at;
}

-- `none` where the constructor raises; `created_at` is what the caller gave, or the clock's time
unfoldable pub task_completion_to_event :
    TaskCompletion → String → String → String → Option TaskCompletionEvent
unfolding event_accepted
task_completion_to_event c run_id event_id created_at =
    let event = event_of c run_id event_id created_at in
    if event_accepted event then some event else none

-- `InMemoryManagerEventSink`
abbrev pub Sink : Type 0
Sink = List TaskCompletionEvent

unfoldable pub record_task_completion : TaskCompletionEvent → Sink → Sink
record_task_completion e sink = sink ++ e ∷ []
