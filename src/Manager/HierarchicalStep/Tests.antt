-- ===== src/Manager/HierarchicalStep/Tests.antt =====
-- The theorems on a hierarchical step, at a plan to read on the dialogue of the samples.
use autonomous_game_agent.Prelude.{ℕ, ◌+◌, ◌-◌, String, true, Option, none, some, List, [], ltb}
use autonomous_game_agent.Prelude.Int.{ℤ, abs}
use autonomous_game_agent.Game.Call.{Call, returns}
use autonomous_game_agent.Observation.{Observation}
use autonomous_game_agent.Planner.Json.{Json, Entries}
use autonomous_game_agent.Planner.Output.{PlannerOutput, RiskLimit, model_dump}
use autonomous_game_agent.Planner.Notes.{ReflectionNote, Raw}
use autonomous_game_agent.Planner.Context.{CortexContext}
use autonomous_game_agent.Manager.Capabilities.{default_runtime_capabilities}
use autonomous_game_agent.Manager.TargetRef.{SkillName, GroundedTarget, TargetType}
use autonomous_game_agent.Manager.Grounding.{GroundingPolicy, VisibleCandidate}
use autonomous_game_agent.Manager.Grounding
use autonomous_game_agent.Manager.SkillContract.{RunnableSkill}
use autonomous_game_agent.Manager.SkillRunner.Runtime.{Verifier}
use autonomous_game_agent.Manager.SkillRunner.Wired.{Wiring, wired}
use autonomous_game_agent.Manager.Catalog.{get, default_skill_factories, verifier_for}
use autonomous_game_agent.Manager.Intake.{SubmissionIds}
use autonomous_game_agent.Manager.HierarchicalStep.{Step, run_once}
use autonomous_game_agent.Manager.Replan.{Memory}
use autonomous_game_agent.Manager.HierarchicalStep.Planned.{
  cortex_planner, Planned, cortex_step-Planned,
}
use autonomous_game_agent.Samples.{
  ids, calm, dialogue_wiring, fresh_id, unchanged, no_fields, constant_id, reading_plan,
  idle_manager,
}

abbrev minus : ℕ → ℕ → ℕ
minus a b = a - b

abbrev taxicab : ℤ → ℤ → ℕ
taxicab x y = abs x + abs y

abbrev skills : SkillName → Option GroundedTarget → Call RunnableSkill
skills name task = get name task default_skill_factories

abbrev verifiers : SkillName → Option GroundedTarget → Call Verifier
verifiers name task = verifier_for taxicab ltb 4 name task

-- a planner that always wants to read on
abbrev planner : Observation → ℕ → List SkillName → Call PlannerOutput
planner o memory skills = returns reading_plan

abbrev named : TargetType → VisibleCandidate → List String → String
named t c _ = "target-1"

abbrev policy : GroundingPolicy
policy = record { min_confidence = 5 }

abbrev names : SubmissionIds
names = record { task_id = "task-1"; planner_output_id = none; planner_trace_id = none }

abbrev step : Step (Wiring ℕ)
step =
    run_once unchanged no_fields constant_id default_runtime_capabilities planner
      (Grounding.ground named policy) (wired minus ltb calm) fresh_id true skills verifiers names
      ids 0 idle_manager dialogue_wiring []

-- a client that always wants to read on, on an empty memory
abbrev no_note : Entries → Option ReflectionNote
no_note kvs = none

abbrev no_risk : Entries → Option RiskLimit
no_risk kvs = none

abbrev reads_plan : Json → Option PlannerOutput
reads_plan raw = some reading_plan

abbrev answers : CortexContext → Option Json
answers c = some (model_dump reading_plan)

abbrev empty_memory : Memory Raw
empty_memory = []

abbrev cortex_step : Step (Wiring ℕ)
cortex_step =
    run_once unchanged reads_plan constant_id default_runtime_capabilities
      (cortex_planner unchanged no_note no_risk reads_plan answers) (Grounding.ground named policy)
      (wired minus ltb calm) fresh_id true skills verifiers names ids empty_memory idle_manager
      dialogue_wiring []

cortex_step-Planned_example :
    Planned unchanged no_note no_risk reads_plan answers constant_id default_runtime_capabilities
      named policy
      (wired minus ltb calm)
      fresh_id
      true
      skills
      verifiers
      names
      ids
      empty_memory
      idle_manager
      dialogue_wiring
      []
      cortex_step.answer
cortex_step-Planned_example =
    cortex_step-Planned unchanged no_note no_risk reads_plan answers constant_id
      default_runtime_capabilities named policy (wired minus ltb calm) fresh_id true skills
      verifiers names ids empty_memory idle_manager dialogue_wiring []
