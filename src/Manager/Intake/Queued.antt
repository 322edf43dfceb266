-- ===== src/Manager/Intake/Queued.antt =====
-- What a submission leaves in the queue.
use mathlib.Core.Path.{subst}
use autonomous_game_agent.Prelude.{String, Option, List, [], ◌∷◌, ◌++◌, ◌≡◌, refl, sym}
use autonomous_game_agent.Game.Call.{Call, returns, raises}
use autonomous_game_agent.Observation.{Observation}
use autonomous_game_agent.Planner.Json.{Json}
use autonomous_game_agent.Planner.Output.{PlannerOutput}
use autonomous_game_agent.Manager.Capabilities.{SkillCapabilityContract}
use autonomous_game_agent.Manager.Task.{TaskSpec, fields_accepted}
use autonomous_game_agent.Manager.TargetRef.{SkillName, GroundingResult}
use autonomous_game_agent.Manager.Scheduler.{ScheduledTask, scheduled, enqueue}
use autonomous_game_agent.Manager.Orchestrator.{Orchestrator}
use autonomous_game_agent.Manager.Grounding.{GroundingRequest}
use autonomous_game_agent.Manager.Grounding.Request.{build_grounding_request}
use autonomous_game_agent.Manager.TaskManager.Create.{
  PlannerInput, output, Creation, created, refused, coerce_planner_output, payload_of,
}
use autonomous_game_agent.Manager.TaskManager.Create.Sound.{
  IsTaskOf, TaskOfInput, created_task-IsTaskOf,
}
use autonomous_game_agent.Manager.Intake.{
  SubmissionIds, SubmissionError, Submission, submitted, not_submitted,
  GroundedCortexTaskSubmissionResult, enqueue_as, submit_planner_output, submission_of, ground_if,
  submit_grounded, submit_requested, plan_ground_and_submit,
}

-- A task keeps what it is under the caller's ID.
named-IsTaskOf :
    {lower : String → String} {capabilities : SkillCapabilityContract} {p : PlannerOutput}
    {grounding : Option GroundingResult} (t : TaskSpec) (task_id : String)
    → IsTaskOf lower capabilities p grounding t
    → IsTaskOf lower capabilities p grounding (record t { task_id = task_id })
unfolding fields_accepted payload_of
named-IsTaskOf t task_id h = record {
  skill = h.skill;
  goal = h.goal;
  conditions = h.conditions;
  available = h.available;
  target = h.target;
  reward = h.reward;
  accepted = h.accepted;
  evidence = h.evidence;
  safe = h.safe;
  payload_safe = h.payload_safe;
}

-- `task` is the last one in the queue of `o'`, which is else `o`; it is untouched, named as asked, and the task of
-- the plan.
pub record IsSubmitted (lower : String → String) (capabilities : SkillCapabilityContract)
    (p : PlannerOutput) (grounding : Option GroundingResult) (task_id : String) (o : Orchestrator)
    (task : ScheduledTask) (o' : Orchestrator) : Type 0 where
  pub task_of : IsTaskOf lower capabilities p grounding task.task_spec
  pub untouched : task ≡ scheduled task.task_spec
  pub named : task.task_spec.task_id ≡ task_id
  pub queued :
      o' ≡ record o { scheduler = record o.scheduler { queue = o.scheduler.queue ++ task ∷ [] } }

module _ (lower : String → String) (fields_of : Json → Option PlannerOutput)
    (task_id_for : TaskSpec → String) (capabilities : SkillCapabilityContract) where
  coerced :
      (p q : PlannerOutput)
      → coerce_planner_output lower fields_of task_id_for (output p) ≡ created q
      → p ≡ q
  unfolding coerce_planner_output
  coerced p q h = cc

  -- A submission that is refused leaves the orchestrator as it was.
  abbrev pub Submitted :
      PlannerInput
      → Option GroundingResult
      → String
      → Orchestrator
      → Creation ScheduledTask × Orchestrator
      → Type 0
  Submitted input grounding task_id o (refused x, o') = o' ≡ o
  Submitted input grounding task_id o (created task, o') =
      (p : PlannerOutput) × (coerce_planner_output lower fields_of task_id_for input ≡ created p)
      × IsSubmitted lower capabilities p grounding task_id o task o'

  pub submit-Submitted :
      (input : PlannerInput) (ids : SubmissionIds) (grounding : Option GroundingResult)
      (o : Orchestrator)
      → Submitted input grounding ids.task_id o
          (submit_planner_output lower fields_of task_id_for capabilities input ids grounding o)
  unfolding submit_planner_output enqueue
  submit-Submitted input ids grounding o = at _ (
      created_task-IsTaskOf lower fields_of task_id_for capabilities grounding ids.planner_output_id
        ids.planner_trace_id input)
    where
      at :
          (c : Creation TaskSpec)
          → TaskOfInput lower fields_of task_id_for capabilities grounding ids.planner_output_id
              ids.planner_trace_id input c
          → Submitted input grounding ids.task_id o
              (enqueue_as lower fields_of task_id_for capabilities ids.task_id c o)
      at (refused x) h = refl
      at (created t) (p, held, h) = (
        p,
        held,
        record {
          task_of = named-IsTaskOf t ids.task_id h;
          untouched = refl;
          named = refl;
          queued = refl;
        },
      )

  module _ {M : Type 0} (plan_next_goal : Observation → M → List SkillName → Call PlannerOutput)
      (ground_request : GroundingRequest → Observation → Call GroundingResult)
      (observation : Observation) (memory : M) (ids : SubmissionIds) (o : Orchestrator) where
    -- The records of a submission: the plan is the planner's for the available skills, the request is the
    -- plan's, the grounding is the request's on the same screen, and the task is queued.
    pub record IsComposed (r : GroundedCortexTaskSubmissionResult) (o' : Orchestrator)
        : Type 0 where
      pub planned :
          plan_next_goal observation memory capabilities.available_skills ≡ returns r.planner_output
      pub requested :
          build_grounding_request r.planner_output.selected_skill r.planner_output.next_goal
            observation
          ≡ returns r.grounding_request
      pub grounded :
          ground_if lower fields_of task_id_for capabilities plan_next_goal ground_request
            r.grounding_request observation
          ≡ returns r.grounding_result
      pub task :
          IsSubmitted lower capabilities r.planner_output r.grounding_result ids.task_id o
            r.scheduled_task o'

    abbrev pub Composed : Submission GroundedCortexTaskSubmissionResult × Orchestrator → Type 0
    Composed (not_submitted x, o') = o' ≡ o
    Composed (submitted r, o') = IsComposed r o'

    abbrev pub grounds : Option GroundingRequest → Call (Option GroundingResult)
    grounds request =
        ground_if lower fields_of task_id_for capabilities plan_next_goal ground_request request
          observation

    grounded-Composed :
        (p : PlannerOutput) (request : Option GroundingRequest)
        → plan_next_goal observation memory capabilities.available_skills ≡ returns p
        → build_grounding_request p.selected_skill p.next_goal observation ≡ returns request
        → (c : Call (Option GroundingResult)) → grounds request ≡ c
        → Composed (
            submit_grounded lower fields_of task_id_for capabilities plan_next_goal ground_request p
              ids request c o)
    unfolding submit_grounded
    grounded-Composed p request planned requested raises grounded = refl
    grounded-Composed p request planned requested (returns g) grounded =
        at (submit_planner_output lower fields_of task_id_for capabilities (output p) ids g o)
          (submit-Submitted (output p) ids g o)
      where
        held :
            (q : PlannerOutput) (task : ScheduledTask) (o' : Orchestrator)
            → p ≡ q
            → IsSubmitted lower capabilities q g ids.task_id o task o'
            → IsSubmitted lower capabilities p g ids.task_id o task o'
        held q task o' e =
            subst (λ (x : PlannerOutput). IsSubmitted lower capabilities x g ids.task_id o task o')
              (sym e)

        at :
            (x : Creation ScheduledTask × Orchestrator)
            → Submitted (output p) g ids.task_id o x
            → Composed (
                submission_of lower fields_of task_id_for capabilities
                  (λ task. record {
                    planner_output = p;
                    grounding_request = request;
                    grounding_result = g;
                    scheduled_task = task;
                  })
                  x)
        at (refused x, o') h = h
        at (created task, o') (q, same, h) = record {
          planned = planned;
          requested = requested;
          grounded = grounded;
          task = held q task o' (coerced p q same) h;
        }

    requested-Composed :
        (p : PlannerOutput)
        → plan_next_goal observation memory capabilities.available_skills ≡ returns p
        → (c : Call (Option GroundingRequest))
        → build_grounding_request p.selected_skill p.next_goal observation ≡ c
        → Composed (
            submit_requested lower fields_of task_id_for capabilities plan_next_goal ground_request
              p observation ids c o)
    unfolding submit_requested
    requested-Composed p planned raises requested = refl
    requested-Composed p planned (returns request) requested =
        grounded-Composed p request planned requested (grounds request) refl

    -- A grounded submission that is refused leaves the orchestrator as it was; one that is made has queued, behind
    -- the others, the task of the planner's plan for this screen, on a grounding in this screen.
    pub submission-Composed : Composed (
        plan_ground_and_submit lower fields_of task_id_for capabilities plan_next_goal
          ground_request observation memory ids o)
    unfolding plan_ground_and_submit
    submission-Composed = at (plan_next_goal observation memory capabilities.available_skills) refl
      where
        at :
            (c : Call PlannerOutput)
            → plan_next_goal observation memory capabilities.available_skills ≡ c
            → Composed
                (elim c as (λ _. Submission GroundedCortexTaskSubmissionResult × Orchestrator) [
                  | raises ↦ (not_submitted SubmissionError.planner_raised, o)
                  | returns p ↦
                      submit_requested lower fields_of task_id_for capabilities plan_next_goal
                        ground_request p observation ids
                        (build_grounding_request p.selected_skill p.next_goal observation)
                        o
                ])
        at raises h = refl
        at (returns p) h = requested-Composed p h _ refl
