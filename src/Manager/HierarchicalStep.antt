-- ===== src/Manager/HierarchicalStep.antt =====
-- src/fh_agent/manager/hierarchical_step.py: one plan, grounded submission, start and bounded attempt; and the source
-- of src/fh_agent/observation/primed_source.py that gives the attempt the screen that was planned on.
pub mod OnScreen
pub mod Composed
pub mod Planned
mod Tests
use autonomous_game_agent.Prelude.{
  ℕ, String, Bool, true, false, not, Option, none, some, List, ◌&&◌, ◌||◌, if◌then◌else◌, is_empty,
  is_none, str_eq,
}
use autonomous_game_agent.Body.Actions.{PrimitiveAction}
use autonomous_game_agent.Game.Call.{Call, returns, raises}
use autonomous_game_agent.Observation.{Observation, ActionResult}
use autonomous_game_agent.Planner.Json.{Json}
use autonomous_game_agent.Planner.Output.{PlannerOutput}
use autonomous_game_agent.Manager.Capabilities.{SkillCapabilityContract}
use autonomous_game_agent.Manager.Task.{TaskSpec}
use autonomous_game_agent.Manager.TargetRef.{SkillName, GroundedTarget, GroundingResult}
use autonomous_game_agent.Manager.EventLog.{Log}
use autonomous_game_agent.Manager.Grounding.{GroundingRequest}
use autonomous_game_agent.Manager.Scheduler.{ScheduledTask, TaskStatus, Scheduler}
use autonomous_game_agent.Manager.SkillContract.{RunnableSkill}
use autonomous_game_agent.Manager.SkillRunner.Runtime.{
  Runtime, Verifier, Sight, seen, exhausted, broken,
}
use autonomous_game_agent.Manager.Orchestrator.{Orchestrator, EventIds, start_next}
use autonomous_game_agent.Manager.Intake.{
  SubmissionIds, SubmissionError, Submission, submitted, not_submitted,
  GroundedCortexTaskSubmissionResult, plan_ground_and_submit,
}
use autonomous_game_agent.Manager.TaskExecutor.{
  TaskExecutionResult, ExecutionError, Attempt, attempted, refused, Execution, execute_current_task,
}

-- A `PrimedObservationSource`: the initial observation while it is available, and what is behind the source.
pub record Primed (W : Type 0) : Type 0 where
  pub initial : Option Observation
  pub remaining : W

module _ {W : Type 0} (rt : Runtime W) where
  -- `PrimedObservationSource.observe`
  unfoldable pub primed_observe : Primed W → Sight × Primed W
  primed_observe p = elim p.initial [
    | some o ↦ (seen o, record p { initial = none })
    | none ↦ let (s, w) = rt.observe p.remaining in (s, record p { remaining = w })
  ]

  unfoldable pub primed_execute : PrimitiveAction → Primed W → Call ActionResult × Primed W
  primed_execute a p = let (r, w) = rt.execute a p.remaining in (r, record p { remaining = w })

  unfoldable pub primed : Runtime (Primed W)
  unfolding primed_observe primed_execute
  primed = record { observe = primed_observe; execute = primed_execute }

pub record HierarchicalTaskStepResult : Type 0 where
  pub planning_observation : Observation
  pub submission_result : GroundedCortexTaskSubmissionResult
  pub started_task : ScheduledTask
  pub execution_result : TaskExecutionResult

pub data StepError : Type 0 where
  not_idle no_observation not_started : StepError
  submission_failed : SubmissionError → StepError
  execution_failed : ExecutionError → StepError

pub data StepAnswer : Type 0 where
  stepped : HierarchicalTaskStepResult → StepAnswer
  step_raised : StepError → StepAnswer

-- What a step answers and leaves behind.
pub record Step (W : Type 0) : Type 0 where
  pub answer : StepAnswer
  pub orchestrator : Orchestrator
  pub world : W
  pub log : Log

-- `current_task is not None or queued_tasks`
unfoldable pub is_busy : Scheduler → Bool
is_busy s = not (is_none s.current_task) || not (is_empty s.queue)

unfoldable pub is_running : TaskStatus → Bool
is_running TaskStatus.running = true
is_running TaskStatus.pending = false
is_running TaskStatus.succeeded = false
is_running TaskStatus.failed = false
is_running TaskStatus.timed_out = false
is_running TaskStatus.cancelled = false

module _ (lower : String → String) (fields_of : Json → Option PlannerOutput)
    (task_id_for : TaskSpec → String) (capabilities : SkillCapabilityContract) {M : Type 0}
    (plan_next_goal : Observation → M → List SkillName → Call PlannerOutput)
    (ground_request : GroundingRequest → Observation → Call GroundingResult) {W : Type 0}
    (rt : Runtime W) (fresh : ℕ → String) (logging : Bool)
    (skill_for : SkillName → Option GroundedTarget → Call RunnableSkill)
    (verifier_for : SkillName → Option GroundedTarget → Call Verifier) where
  abbrev pub step_fails : StepError → Orchestrator → W → Log → Step W
  step_fails x o w log = record { answer = step_raised x; orchestrator = o; world = w; log = log }

  -- the step's result, from the attempt's
  abbrev pub step_of :
      Observation
      → GroundedCortexTaskSubmissionResult
      → ScheduledTask
      → Execution (Primed W)
      → Attempt
      → Step W
  step_of observation submission started e (refused x) =
      step_fails (execution_failed x) e.orchestrator e.world.remaining e.log
  step_of observation submission started e (attempted a) = record {
    answer = stepped (record {
      planning_observation = observation;
      submission_result = submission;
      started_task = started;
      execution_result = a;
    });
    orchestrator = e.orchestrator;
    world = e.world.remaining;
    log = e.log;
  }

  -- from the started task on
  unfoldable pub attempt_started :
      EventIds
      → Observation
      → GroundedCortexTaskSubmissionResult
      → Option ScheduledTask
      → Orchestrator
      → W
      → Log
      → Step W
  unfolding is_running primed execute_current_task
  attempt_started ids observation submission none o w log = step_fails not_started o w log
  attempt_started ids observation submission (some started) o w log =
      if not (is_running started.status)
        || not (str_eq started.task_spec.task_id submission.scheduled_task.task_spec.task_id)
      then step_fails not_started o w log
      else let e =
          execute_current_task (primed rt) fresh logging skill_for verifier_for ids o
            (record { initial = some observation; remaining = w }) log in
        step_of observation submission started e e.answer

  -- from the submission on
  unfoldable pub start_submitted :
      EventIds
      → Observation
      → Submission GroundedCortexTaskSubmissionResult
      → Orchestrator
      → W
      → Log
      → Step W
  unfolding attempt_started start_next
  start_submitted ids observation (not_submitted x) o w log =
      step_fails (submission_failed x) o w log
  start_submitted ids observation (submitted submission) o w log =
      let (started, o') = start_next o in
      attempt_started ids observation submission started o' w log

  -- from the planning observation on
  unfoldable pub submit_seen :
      SubmissionIds → EventIds → M → Sight → Orchestrator → W → Log → Step W
  unfolding start_submitted plan_ground_and_submit
  submit_seen names ids memory exhausted o w log = step_fails no_observation o w log
  submit_seen names ids memory broken o w log = step_fails no_observation o w log
  submit_seen names ids memory (seen observation) o w log =
      let (submission, o') =
        plan_ground_and_submit lower fields_of task_id_for capabilities plan_next_goal
          ground_request observation memory names o in
      start_submitted ids observation submission o' w log

  unfoldable pub run_once : SubmissionIds → EventIds → M → Orchestrator → W → Log → Step W
  unfolding submit_seen is_busy
  run_once names ids memory o w log =
      let (sight, w') = rt.observe w in
      if is_busy o.scheduler
      then step_fails not_idle o w log
      else submit_seen names ids memory sight o w' log
