-- ===== src/Manager/TaskManager/Create/Sound.antt =====
-- What a task that the Task Manager creates is.
use autonomous_game_agent.Prelude.{
  String, true, false, not, Option, some, ◌≡◌, refl, map, arith, if_holds, option_holds,
}
use autonomous_game_agent.Prelude.Ids.{contains}
use autonomous_game_agent.Planner.Json.{Json}
use autonomous_game_agent.Planner.Json.Inside.{Inside}
use autonomous_game_agent.Planner.Scan.{primitive_action_names}
use autonomous_game_agent.Planner.Scan.Complete.{is_control}
use autonomous_game_agent.Planner.Hidden.Complete.{names_hidden_state}
use autonomous_game_agent.Planner.Contract.{reject_unsafe_content}
use autonomous_game_agent.Planner.Contract.Safe.{answer_passes_iff}
use autonomous_game_agent.Planner.Output.{
  PlannerOutput, EvidenceBackedClaim, MemoryUpdateRequest, model_dump,
}
use autonomous_game_agent.Manager.Capabilities.{SkillCapabilityContract, is_available}
use autonomous_game_agent.Manager.Reward.{default_reward_profile_for_skill}
use autonomous_game_agent.Manager.Task.{TaskSpec, fields_accepted}
use autonomous_game_agent.Manager.TargetRef.{skill_text, GroundingResult}
use autonomous_game_agent.Manager.TaskManager.{
  Validated, target_is, rejected, validated_target, evidence_of_target, evidence_of_grounding,
}
use autonomous_game_agent.Manager.TaskManager.Target.{Fits, validated_target-Fits}
use autonomous_game_agent.Manager.TaskManager.Evidence.{IsUnion, source_evidence-IsUnion}
use autonomous_game_agent.Manager.TaskManager.Create.{
  PlannerInput, Creation, created, refused, coerce_planner_output, pending_task, validated_task,
  create_targeted, create_from_output, create_task_from_planner_output, payload_of,
}

-- No value in `j`, at any depth, gives a direct control or names hidden state.
abbrev pub IsSafe : (String → String) → Json → Type 0
IsSafe lower j =
    (v : Json) → Inside v j → (is_control v ≡ false) × (names_hidden_state lower v ≡ false)

-- The task of a plan, where the Task Manager creates one.
pub record IsTaskOf (lower : String → String) (capabilities : SkillCapabilityContract)
    (p : PlannerOutput) (grounding : Option GroundingResult) (t : TaskSpec) : Type 0 where
  pub skill : t.selected_skill ≡ p.selected_skill
  pub goal : t.goal ≡ p.next_goal
  pub conditions : t.success_conditions ≡ p.success_condition
  pub available : is_available t.selected_skill capabilities.available_skills ≡ true
  pub target : Fits t.selected_skill grounding (target_is t.target)
  pub reward :
      default_reward_profile_for_skill (skill_text t.selected_skill) ≡ some t.reward_profile
  pub accepted : fields_accepted t ≡ true
  pub evidence :
      IsUnion
        (map (λ (c : EvidenceBackedClaim). c.evidence_ids) p.current_belief_state)
        (map (λ (u : MemoryUpdateRequest). u.evidence_ids) p.memory_updates_requested)
        (evidence_of_target t.target)
        (evidence_of_grounding grounding)
        t.source_evidence_ids
  pub safe : IsSafe lower (model_dump p)
  -- the data of the specification, in which the target and the reward profile are opaque
  pub payload_safe : IsSafe lower (payload_of (record t { task_id = "task-pending" }) p)

module _ (lower : String → String) (fields_of : Json → Option PlannerOutput)
    (task_id_for : TaskSpec → String) (capabilities : SkillCapabilityContract)
    (grounding : Option GroundingResult) (output_id trace_id : Option String) where
  abbrev pub TaskOf : PlannerOutput → Creation TaskSpec → Type 0
  TaskOf p (refused x) = Unit
  TaskOf p (created t) = IsTaskOf lower capabilities p grounding t

  targeted-TaskOf :
      (p : PlannerOutput)
      → IsSafe lower (model_dump p)
      → is_available p.selected_skill capabilities.available_skills ≡ true
      → (v : Validated) → Fits p.selected_skill grounding v
      → TaskOf p (create_targeted lower fields_of task_id_for p grounding output_id trace_id v)
  unfolding create_targeted validated_task pending_task fields_accepted
  targeted-TaskOf p safe available (rejected e) fits = tt
  targeted-TaskOf p safe available (target_is target) fits =
      option_holds (TaskOf p) (default_reward_profile_for_skill (skill_text p.selected_skill))
        (λ h. tt)
        (λ profile h.
          let t =
            pending_task lower fields_of task_id_for p grounding target profile output_id
              trace_id in
          option_holds (TaskOf p) (reject_unsafe_content lower (payload_of t p))
            (λ k.
              if_holds (TaskOf p) (fields_accepted t)
                (λ ok. record {
                  skill = refl;
                  goal = refl;
                  conditions = refl;
                  available = available;
                  target = fits;
                  reward = h;
                  accepted = ok;
                  evidence =
                      source_evidence-IsUnion
                        (map (λ (c : EvidenceBackedClaim). c.evidence_ids) p.current_belief_state)
                        (map (λ (u : MemoryUpdateRequest). u.evidence_ids)
                          p.memory_updates_requested)
                        grounding target;
                  safe = safe;
                  payload_safe = (answer_passes_iff lower (payload_of t p)).1.0 k;
                })
                (λ no. tt))
            (λ r k. tt))

  from_output-TaskOf :
      (p : PlannerOutput)
      → TaskOf p (
          create_from_output lower fields_of task_id_for capabilities p grounding output_id
            trace_id)
  unfolding create_from_output
  from_output-TaskOf p =
      option_holds (TaskOf p) (reject_unsafe_content lower (model_dump p))
        (λ k.
          if_holds (TaskOf p) (contains primitive_action_names (skill_text p.selected_skill))
            (λ h. tt)
            (λ h.
              if_holds (TaskOf p)
                (not (is_available p.selected_skill capabilities.available_skills)) (λ u. tt)
                (λ u.
                  targeted-TaskOf p ((answer_passes_iff lower (model_dump p)).1.0 k) (ground arith)
                    (validated_target p.selected_skill grounding)
                    (validated_target-Fits p.selected_skill grounding))))
        (λ r k. tt)

  -- What the Task Manager makes of an input: an error, or the task of the plan that the input holds.
  abbrev pub TaskOfInput : PlannerInput → Creation TaskSpec → Type 0
  TaskOfInput input (refused x) = Unit
  TaskOfInput input (created t) =
      (p : PlannerOutput) × (coerce_planner_output lower fields_of task_id_for input ≡ created p)
      × IsTaskOf lower capabilities p grounding t

  -- A task that is created is of a plan that the input holds: of the plan's skill, which is available, its goal and
  -- conditions; with a target that fits the skill, the default rewards of the skill, distinct evidence IDs that are
  -- exactly those of the plan, the target and the grounding, and accepted fields. No value of the plan, at any depth,
  -- gives a direct control or names hidden state, and none of the specification's data does, in which the target and
  -- the reward profile are opaque: what these two hold is not looked into, and of the target only the evidence IDs are
  -- in the data.
  pub created_task-IsTaskOf :
      (input : PlannerInput)
      → TaskOfInput input (
          create_task_from_planner_output lower fields_of task_id_for capabilities input grounding
            output_id trace_id)
  unfolding create_task_from_planner_output
  created_task-IsTaskOf input = at (coerce_planner_output lower fields_of task_id_for input) refl
    where
      held :
          (p : PlannerOutput) (c : Creation TaskSpec)
          → coerce_planner_output lower fields_of task_id_for input ≡ created p
          → TaskOf p c
          → TaskOfInput input c
      held p (refused x) h t = tt
      held p (created s) h t = (p, h, t)

      at :
          (c : Creation PlannerOutput)
          → coerce_planner_output lower fields_of task_id_for input ≡ c
          → TaskOfInput input (elim c as (λ _. Creation TaskSpec) [
            | refused x ↦ refused x
            | created p ↦
                create_from_output lower fields_of task_id_for capabilities p grounding output_id
                  trace_id
          ])
      at (refused x) h = tt
      at (created p) h =
          held p
            (create_from_output lower fields_of task_id_for capabilities p grounding output_id
              trace_id)
            h (from_output-TaskOf p)
