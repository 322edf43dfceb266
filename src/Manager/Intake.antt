-- ===== src/Manager/Intake.antt =====
-- How a plan becomes a queued task: `ManagerOrchestrator.submit_planner_output` of
-- src/fh_agent/manager/orchestrator.py, and the submitters of src/fh_agent/manager/cortex_submission.py and
-- grounded_cortex_submission.py. The planner and the grounding service are the submitters' own parameters.
pub mod Queued
use autonomous_game_agent.Prelude.{String, Option, none, some, List}
use autonomous_game_agent.Game.Call.{Call, returns, raises}
use autonomous_game_agent.Observation.{Observation}
use autonomous_game_agent.Planner.Json.{Json}
use autonomous_game_agent.Planner.Output.{PlannerOutput}
use autonomous_game_agent.Manager.Capabilities.{SkillCapabilityContract}
use autonomous_game_agent.Manager.Task.{TaskSpec}
use autonomous_game_agent.Manager.TargetRef.{SkillName, GroundingResult}
use autonomous_game_agent.Manager.Scheduler.{ScheduledTask, enqueue}
use autonomous_game_agent.Manager.Orchestrator.{Orchestrator}
use autonomous_game_agent.Manager.Grounding.{GroundingRequest}
use autonomous_game_agent.Manager.Grounding.Request.{build_grounding_request}
use autonomous_game_agent.Manager.TaskManager.Create.{
  PlannerInput, output, Creation, created, refused, CreationError, create_task_from_planner_output,
}

-- The names that a caller gives to a submission.
pub record SubmissionIds : Type 0 where
  pub task_id : String
  pub planner_output_id : Option String
  pub planner_trace_id : Option String

pub data SubmissionError : Type 0 where
  planner_raised request_raised grounding_raised : SubmissionError
  not_created : CreationError → SubmissionError

pub data Submission (A : Type 0) : Type 0 where
  submitted : A → Submission A
  not_submitted : SubmissionError → Submission A

pub record CortexTaskSubmissionResult : Type 0 where
  pub planner_output : PlannerOutput
  pub scheduled_task : ScheduledTask

pub record GroundedCortexTaskSubmissionResult : Type 0 where
  pub planner_output : PlannerOutput
  pub grounding_request : Option GroundingRequest
  pub grounding_result : Option GroundingResult
  pub scheduled_task : ScheduledTask

module _ (lower : String → String) (fields_of : Json → Option PlannerOutput)
    (task_id_for : TaskSpec → String) (capabilities : SkillCapabilityContract) where
  -- the copy with the caller's ID, and `scheduler.enqueue`
  unfoldable pub enqueue_as :
      String → Creation TaskSpec → Orchestrator → Creation ScheduledTask × Orchestrator
  unfolding enqueue
  enqueue_as task_id (refused x) o = (refused x, o)
  enqueue_as task_id (created t) o =
      let (task, s) = enqueue (record t { task_id = task_id }) o.scheduler in
      (created task, record o { scheduler = s })

  unfoldable pub submit_planner_output :
      PlannerInput
      → SubmissionIds
      → Option GroundingResult
      → Orchestrator
      → Creation ScheduledTask × Orchestrator
  unfolding enqueue_as
  submit_planner_output input ids grounding o =
      enqueue_as ids.task_id
        (create_task_from_planner_output lower fields_of task_id_for capabilities input grounding
          ids.planner_output_id ids.planner_trace_id)
        o

  -- what a submitter makes of the Manager's answer
  abbrev pub submission_of :
      {A : Type 0}
      → (ScheduledTask → A)
      → Creation ScheduledTask × Orchestrator
      → Submission A × Orchestrator
  submission_of result (refused x, o) = (not_submitted (not_created x), o)
  submission_of result (created task, o) = (submitted (result task), o)

  module _ {M : Type 0}
      (plan_next_goal : Observation → M → List SkillName → Call PlannerOutput) where
    unfoldable pub plan_and_submit :
        Observation
        → M
        → SubmissionIds
        → Option GroundingResult
        → Orchestrator
        → Submission CortexTaskSubmissionResult × Orchestrator
    unfolding submit_planner_output
    plan_and_submit observation memory ids grounding o =
        elim (plan_next_goal observation memory capabilities.available_skills) [
          | raises ↦ (not_submitted planner_raised, o)
          | returns p ↦
              submission_of (λ task. record { planner_output = p; scheduled_task = task })
                (submit_planner_output (output p) ids grounding o)
        ]

    module _ (ground_request : GroundingRequest → Observation → Call GroundingResult) where
      -- `ground(request, observation) if request is not None else None`
      unfoldable pub ground_if :
          Option GroundingRequest → Observation → Call (Option GroundingResult)
      ground_if none observation = returns none
      ground_if (some request) observation = elim (ground_request request observation) [
        | raises ↦ raises
        | returns g ↦ returns (some g)
      ]

      -- the submission, from the grounding on
      unfoldable pub submit_grounded :
          PlannerOutput
          → SubmissionIds
          → Option GroundingRequest
          → Call (Option GroundingResult)
          → Orchestrator
          → Submission GroundedCortexTaskSubmissionResult × Orchestrator
      unfolding submit_planner_output
      submit_grounded p ids request raises o = (not_submitted grounding_raised, o)
      submit_grounded p ids request (returns grounding) o =
          submission_of
            (λ task. record {
              planner_output = p;
              grounding_request = request;
              grounding_result = grounding;
              scheduled_task = task;
            })
            (submit_planner_output (output p) ids grounding o)

      -- the submission, from the request on
      unfoldable pub submit_requested :
          PlannerOutput
          → Observation
          → SubmissionIds
          → Call (Option GroundingRequest)
          → Orchestrator
          → Submission GroundedCortexTaskSubmissionResult × Orchestrator
      unfolding submit_grounded ground_if
      submit_requested p observation ids raises o = (not_submitted request_raised, o)
      submit_requested p observation ids (returns request) o =
          submit_grounded p ids request (ground_if request observation) o

      unfoldable pub plan_ground_and_submit :
          Observation
          → M
          → SubmissionIds
          → Orchestrator
          → Submission GroundedCortexTaskSubmissionResult × Orchestrator
      unfolding submit_requested build_grounding_request
      plan_ground_and_submit observation memory ids o =
          elim (plan_next_goal observation memory capabilities.available_skills) [
            | raises ↦ (not_submitted planner_raised, o)
            | returns p ↦
                submit_requested p observation ids
                  (build_grounding_request p.selected_skill p.next_goal observation) o
          ]
