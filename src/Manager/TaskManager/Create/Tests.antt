-- ===== src/Manager/TaskManager/Create/Tests.antt =====
-- Tasks that are created of a plan to read on, and plans that are refused.
use autonomous_game_agent.Prelude.{String, none, some, Option, [], ◌∷◌, ◌≡◌, refl}
use autonomous_game_agent.Prelude.Ids.{contains, extend_all}
use autonomous_game_agent.Planner.Text.{decimal}
use autonomous_game_agent.Planner.Scan.{find_direct_control_violations}
use autonomous_game_agent.Planner.Hidden.{find_hidden_state_term_violations}
use autonomous_game_agent.Planner.Contract.{hidden_state_terms, reject_unsafe_content}
use autonomous_game_agent.Planner.Output.{PlannerOutput, model_dump}
use autonomous_game_agent.Manager.Capabilities.{default_runtime_capabilities}
use autonomous_game_agent.Manager.Reward.{default_reward_profile_for_skill}
use autonomous_game_agent.Manager.Task.{TaskSpec}
use autonomous_game_agent.Manager.TargetRef.{
  SkillName, GroundedTarget, target_requirement_for_skill,
}
use autonomous_game_agent.Manager.Grounding.{grounded_on}
use autonomous_game_agent.Manager.TaskManager.{validated_target, source_evidence_ids}
use autonomous_game_agent.Manager.TaskManager.Create.{
  output, Creation, created, refused, unsafe_payload, unavailable_skill,
  create_task_from_planner_output,
}
use autonomous_game_agent.Manager.TaskManager.Create.Sound.{TaskOfInput, created_task-IsTaskOf}
use autonomous_game_agent.Samples.{point_target, reading_plan, unchanged, no_fields, constant_id}

abbrev creation : PlannerOutput → Option String → Creation TaskSpec
creation p trace_id =
    create_task_from_planner_output unchanged no_fields constant_id default_runtime_capabilities
      (output p) none (some "plan-1") trace_id

-- A goal or a trace ID that contains a term of hidden state is refused.
creation-hidden_goal :
    creation (record reading_plan { next_goal = "find enemy_hp" }) none
    ≡ refused (unsafe_payload (hidden_state_terms ("next_goal" ∷ [])))
unfolding create_task_from_planner_output reject_unsafe_content find_direct_control_violations
    find_hidden_state_term_violations model_dump decimal contains
creation-hidden_goal = refl

creation-unavailable :
    creation (record reading_plan { selected_skill = SkillName.safe_reach_target }) none
    ≡ refused unavailable_skill
unfolding create_task_from_planner_output reject_unsafe_content find_direct_control_violations
    find_hidden_state_term_violations model_dump decimal contains
creation-unavailable = refl

created_task-IsTaskOf_example :
    TaskOfInput unchanged no_fields constant_id default_runtime_capabilities none
      (some "plan-1")
      none
      (output reading_plan)
      (creation reading_plan none)
created_task-IsTaskOf_example =
    created_task-IsTaskOf unchanged no_fields constant_id default_runtime_capabilities none
      (some "plan-1") none (output reading_plan)

-- what the task of the sample says
abbrev goal_of : Creation TaskSpec → Option String
goal_of (created t) = some t.goal
goal_of (refused x) = none

creation-goal : goal_of (creation reading_plan none) ≡ some "read on"
unfolding create_task_from_planner_output reject_unsafe_content find_direct_control_violations
    find_hidden_state_term_violations model_dump decimal contains validated_target
    source_evidence_ids extend_all default_reward_profile_for_skill target_requirement_for_skill
creation-goal = refl

-- A target that is named after hidden state is taken up: the scan does not look into it.
abbrev hidden_target : GroundedTarget
hidden_target = GroundedTarget.visible_screen_point (record point_target { target_id = "enemy_hp" })

abbrev target_of : Creation TaskSpec → Option GroundedTarget
target_of (created t) = t.target
target_of (refused x) = none

creation-hidden_target :
    target_of (
      create_task_from_planner_output unchanged no_fields constant_id default_runtime_capabilities
        (output (record reading_plan { selected_skill = SkillName.basic_reach_target }))
        (some (grounded_on hidden_target ("shot-2" ∷ [])))
        none
        none)
    ≡ some hidden_target
unfolding create_task_from_planner_output reject_unsafe_content find_direct_control_violations
    find_hidden_state_term_violations model_dump decimal contains validated_target
    source_evidence_ids extend_all default_reward_profile_for_skill target_requirement_for_skill
creation-hidden_target = refl
