-- ===== src/Samples.antt =====
-- Concrete screens, targets, tasks and runtimes, on which the tests apply the theorems.
use autonomous_game_agent.Prelude.{ℕ, ◌+◌, String, true, false, Option, none, some, [], ◌∷◌}
use autonomous_game_agent.Prelude.Int.{pos}
use autonomous_game_agent.Game.Call.{returns}
use autonomous_game_agent.Game.InputExecutor.{Answers, Executor}
use autonomous_game_agent.Observation.{Observation, VisibleSprite, UiState, blank}
use autonomous_game_agent.Planner.Json.{Json}
use autonomous_game_agent.Planner.Output.{PlannerOutput, fact}
use autonomous_game_agent.Manager.TargetRef.{SkillName, VisibleScreenPointTarget}
use autonomous_game_agent.Manager.Reward.{RewardProfile, RewardTermName}
use autonomous_game_agent.Manager.Task.{TaskSpec}
use autonomous_game_agent.Verifier.Schemas.{success_with}
use autonomous_game_agent.Manager.Events.{TaskCompletionEvent, event_of}
use autonomous_game_agent.Manager.Scheduler.{Scheduler, ScheduledTask, TaskStatus, TaskCompletion}
use autonomous_game_agent.Manager.Orchestrator.{Orchestrator, EventIds}
use autonomous_game_agent.Manager.SkillRunner.Wired.{Wiring}

abbrev pub talking : Observation
talking = record (blank "run") {
  observation_id = some "obs-1";
  ui_state = UiState.dialogue;
  visible_message_text = some "Hello";
  evidence_ids = "shot-1" ∷ [];
}

abbrev pub walking : Observation
walking = record (blank "run") {
  observation_id = some "obs-2";
  ui_state = UiState.field;
  player_screen_position = some (pos 3, pos 4);
  evidence_ids = "shot-2" ∷ [];
}

abbrev pub chest : VisibleSprite
chest = record {
  screen_position = (pos 7, pos 4);
  visual_hash = some "chest-hash";
  confidence = some 9;
  evidence_id = some "sprite-1";
}

abbrev pub blurred : VisibleSprite
blurred = record {
  screen_position = (pos 1, pos 1);
  visual_hash = none;
  confidence = some 2;
  evidence_id = none;
}

abbrev pub exploring : Observation
exploring = record walking { visible_sprites = blurred ∷ chest ∷ [] }

abbrev pub point_target : VisibleScreenPointTarget
point_target = record {
  target_id = "target-1";
  confidence = 9;
  evidence_ids = "shot-2" ∷ [];
  screen_position = (7, 4);
}

abbrev pub profile : RewardProfile
profile = record {
  profile_name = "dialogue";
  terms = record { name = RewardTermName.skill_success; weight = pos 4 } ∷ [];
}

abbrev pub dialogue_task : TaskSpec
dialogue_task = record {
  task_id = "task-1";
  selected_skill = SkillName.continue_dialogue;
  goal = "read on";
  target = none;
  constraints = [];
  success_conditions = "dialogue_closed" ∷ [];
  failure_conditions = "death_screen" ∷ [];
  timeout_steps = 2;
  reward_profile = profile;
  source_evidence_ids = "shot-1" ∷ [];
  planner_output_id = none;
  planner_trace_id = none;
}

abbrev pub running_task : ScheduledTask
running_task = record {
  task_spec = dialogue_task;
  status = TaskStatus.running;
  elapsed_steps = 0;
  completion = none;
}

abbrev pub busy : Scheduler
busy = record { queue = []; current_task = some running_task; completed_tasks = [] }

abbrev pub manager : Orchestrator
manager = record { scheduler = busy; event_sink = some [] }

abbrev pub ids : EventIds
ids = record { run_id = "run"; event_id = "event-1"; created_at = "now" }

-- an outside that lets every call through, at the times 10, 11, 12, ...
abbrev pub calm : ℕ → Answers ℕ
calm n = record {
  now = returns (n + 10);
  check = returns false;
  focused = returns true;
  sent = returns tt;
}

abbrev pub fresh_executor : Executor ℕ
fresh_executor = record {
  min_interval = 1;
  has_check = true;
  emergency_stop_enabled = false;
  last_execution = none;
  calls = [];
}

abbrev pub dialogue_wiring : Wiring ℕ
dialogue_wiring = record {
  remaining = talking ∷ walking ∷ [];
  executor = fresh_executor;
  calls_made = 0;
}

-- event IDs
abbrev pub fresh_id : ℕ → String
fresh_id n = "event"

-- what the Task Manager is given for a test in lower case, of an output that is no raw data
abbrev pub unchanged : String → String
unchanged s = s

abbrev pub no_fields : Json → Option PlannerOutput
no_fields raw = none

abbrev pub constant_id : TaskSpec → String
constant_id t = "task-digest"

abbrev pub reading_plan : PlannerOutput
reading_plan = record {
  current_belief_state =
      record { kind = fact; claim = "a dialogue is open"; evidence_ids = "shot-1" ∷ [] } ∷ [];
  open_questions = [];
  next_goal = "read on";
  selected_skill = SkillName.continue_dialogue;
  success_condition = "dialogue_closed" ∷ [];
  risk_limit = record { avoid_known_dangers = true; max_danger_score = 0 };
  memory_updates_requested = [];
}

abbrev pub idle_manager : Orchestrator
idle_manager = record {
  scheduler = record { queue = []; current_task = none; completed_tasks = [] };
  event_sink = some [];
}

-- the dialogue task, completed on a verdict, and its event
abbrev pub read_task : TaskCompletion
read_task = record {
  task_id = "task-1";
  task_spec = dialogue_task;
  status = TaskStatus.succeeded;
  condition = "success";
  evidence_ids = "shot-1" ∷ [];
  reason = none;
  elapsed_steps = 1;
  verifier_result = some (success_with ("shot-1" ∷ []));
  verifier_event_id = none;
  manager_stop_result = none;
  manager_stop_event_id = none;
}

abbrev pub read_event : TaskCompletionEvent
read_event = event_of read_task "run" "event-1" "now"
