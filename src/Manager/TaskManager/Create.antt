-- ===== src/Manager/TaskManager/Create.antt =====
-- src/fh_agent/manager/task_manager.py: `create_task_from_planner_output`, with the validation of the
-- specification by src/fh_agent/manager/task_spec.py. Parameters are Python's `str.lower`, pydantic's reading of
-- fields from raw data, and the text of a task's ID (`task-` and a digest).
pub mod Sound
mod Tests
use autonomous_game_agent.Prelude.{
  ℕ, String, Bool, true, false, not, Option, none, some, List, [], ◌∷◌, ◌&&◌, map, if◌then◌else◌,
  ◌≡◌, ◌⊎◌, inl, inr, refl,
}
use autonomous_game_agent.Prelude.Int.{pos}
use autonomous_game_agent.Prelude.Ids.{contains}
use autonomous_game_agent.Planner.Json.{Json, text, atom, array, object, no_entries, entry, Atom}
use autonomous_game_agent.Planner.Scan.{primitive_action_names}
use autonomous_game_agent.Planner.Contract.{Rejection, reject_unsafe_content}
use autonomous_game_agent.Planner.Output.{
  PlannerOutput, EvidenceBackedClaim, MemoryUpdateRequest, model_dump, model_validate, texts,
  optional_text, risk_entries,
}
use autonomous_game_agent.Manager.Capabilities.{SkillCapabilityContract, is_available}
use autonomous_game_agent.Manager.Reward.{RewardProfile, default_reward_profile_for_skill}
use autonomous_game_agent.Manager.Task.{TaskSpec, JsonScalar, fields_accepted}
use autonomous_game_agent.Manager.TargetRef.{SkillName, skill_text, GroundedTarget, GroundingResult}
use autonomous_game_agent.Manager.TaskManager.{
  ManagerGroundingError, Validated, target_is, rejected, validated_target, source_evidence_ids,
}

-- What the Task Manager is given: an output, or a mapping of raw data.
pub data PlannerInput : Type 0 where
  output : PlannerOutput → PlannerInput
  mapping : Json → PlannerInput

-- What is raised: a `TaskManagerError`, or the error of a constructor or a lookup.
pub data CreationError : Type 0 where
  unsafe_payload : Rejection → CreationError
  invalid_planner_output primitive_skill unavailable_skill no_reward_profile : CreationError
  grounding_rejected : ManagerGroundingError → CreationError
  invalid_task_spec : CreationError

pub data Creation (A : Type 0) : Type 0 where
  created : A → Creation A
  refused : CreationError → Creation A

pub Creation-cases :
    {A : Type 0} (c : Creation A)
    → ((x : CreationError) × (c ≡ refused x)) ⊎ ((a : A) × (c ≡ created a))
Creation-cases (created a) = inr (a, refl)
Creation-cases (refused x) = inl (x, refl)

-- `DEFAULT_TIMEOUT_STEPS.get(selected_skill, 60)`
unfoldable pub default_timeout_steps : SkillName → ℕ
default_timeout_steps SkillName.continue_dialogue = 6
default_timeout_steps SkillName.basic_reach_target = 60
default_timeout_steps SkillName.interact_visible_object = 12
default_timeout_steps SkillName.safe_reach_target = 90
default_timeout_steps SkillName.interact_visible = 60

abbrev pub default_failure_conditions : List String
default_failure_conditions = "death_screen" ∷ "timeout" ∷ "no_progress" ∷ []

abbrev pub model_or_null {ℓ} : {A : Type ℓ} → Option A → Json
model_or_null none = atom Atom.null
model_or_null (some a) = atom Atom.model

-- The data that `TaskSpec.model_validate` is given. The target and the reward profile are objects of model
-- classes, which the scans do not look into.
unfoldable pub payload_of : TaskSpec → PlannerOutput → Json
unfolding texts skill_text
payload_of t p = object (
    entry "task_id" (text t.task_id) (
      entry "selected_skill" (text (skill_text t.selected_skill)) (
        entry "goal" (text t.goal) (
          entry "target" (model_or_null t.target) (
            entry "constraints" (object (risk_entries p.risk_limit)) (
              entry "success_conditions" (array (texts t.success_conditions)) (
                entry "failure_conditions" (array (texts t.failure_conditions)) (
                  entry "timeout_steps" (atom Atom.number) (
                    entry "reward_profile" (atom Atom.model) (
                      entry "source_evidence_ids" (array (texts t.source_evidence_ids)) (
                        entry "planner_output_id" (optional_text t.planner_output_id) (
                          entry "planner_trace_id" (optional_text t.planner_trace_id)
                            no_entries))))))))))))

module _ (lower : String → String) (fields_of : Json → Option PlannerOutput)
    (task_id_for : TaskSpec → String) where
  -- `_coerce_planner_output`
  unfoldable pub coerce_planner_output : PlannerInput → Creation PlannerOutput
  coerce_planner_output (output p) = created p
  coerce_planner_output (mapping raw) = elim (reject_unsafe_content lower raw) [
    | some r ↦ refused (unsafe_payload r)
    | none ↦ elim (model_validate fields_of raw) [
      | none ↦ refused invalid_planner_output
      | some p ↦ created p
    ]
  ]

  -- the specification that the payload describes
  unfoldable pub pending_task :
      PlannerOutput
      → Option GroundingResult
      → Option GroundedTarget
      → RewardProfile
      → Option String
      → Option String
      → TaskSpec
  unfolding default_timeout_steps
  pending_task p grounding target profile output_id trace_id = record {
    task_id = "task-pending";
    selected_skill = p.selected_skill;
    goal = p.next_goal;
    target = target;
    constraints =
        ("avoid_known_dangers", JsonScalar.bool p.risk_limit.avoid_known_dangers)
        ∷ ("max_danger_score", JsonScalar.float (pos p.risk_limit.max_danger_score))
        ∷ [];
    success_conditions = p.success_condition;
    failure_conditions = default_failure_conditions;
    timeout_steps = default_timeout_steps p.selected_skill;
    reward_profile = profile;
    source_evidence_ids =
        source_evidence_ids
          (map (λ (c : EvidenceBackedClaim). c.evidence_ids) p.current_belief_state)
          (map (λ (u : MemoryUpdateRequest). u.evidence_ids) p.memory_updates_requested) grounding
          target;
    planner_output_id = output_id;
    planner_trace_id = trace_id;
  }

  -- `TaskSpec.model_validate`, and the copy with the task's ID
  unfoldable pub validated_task : TaskSpec → PlannerOutput → Creation TaskSpec
  unfolding payload_of fields_accepted
  validated_task t p = elim (reject_unsafe_content lower (payload_of t p)) [
    | some r ↦ refused invalid_task_spec
    | none ↦
        if fields_accepted t
        then created (record t { task_id = task_id_for t })
        else refused invalid_task_spec
  ]

  -- from the validated target on
  unfoldable pub create_targeted :
      PlannerOutput
      → Option GroundingResult
      → Option String
      → Option String
      → Validated
      → Creation TaskSpec
  unfolding pending_task validated_task
  create_targeted p grounding output_id trace_id (rejected e) = refused (grounding_rejected e)
  create_targeted p grounding output_id trace_id (target_is target) =
      elim (default_reward_profile_for_skill (skill_text p.selected_skill)) [
        | none ↦ refused no_reward_profile
        | some profile ↦
            validated_task (pending_task p grounding target profile output_id trace_id) p
      ]

  -- the guards, for an output
  unfoldable pub create_from_output :
      SkillCapabilityContract
      → PlannerOutput
      → Option GroundingResult
      → Option String
      → Option String
      → Creation TaskSpec
  unfolding create_targeted is_available
  create_from_output capabilities p grounding output_id trace_id =
      elim (reject_unsafe_content lower (model_dump p)) [
        | some r ↦ refused (unsafe_payload r)
        | none ↦
            if contains primitive_action_names (skill_text p.selected_skill)
            then refused primitive_skill
            else if not (is_available p.selected_skill capabilities.available_skills)
            then refused unavailable_skill
            else create_targeted p grounding output_id trace_id
                (validated_target p.selected_skill grounding)
      ]

  unfoldable pub create_task_from_planner_output :
      SkillCapabilityContract
      → PlannerInput
      → Option GroundingResult
      → Option String
      → Option String
      → Creation TaskSpec
  unfolding create_from_output coerce_planner_output
  create_task_from_planner_output capabilities input grounding output_id trace_id =
      elim (coerce_planner_output input) [
        | refused x ↦ refused x
        | created p ↦ create_from_output capabilities p grounding output_id trace_id
      ]
