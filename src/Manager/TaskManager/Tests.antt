-- ===== src/Manager/TaskManager/Tests.antt =====
-- The theorems on targets and evidence, at a grounded point.
use autonomous_game_agent.Prelude.{String, some, List, [], ◌∷◌, ◌≡◌, refl}
use autonomous_game_agent.Prelude.Ids.{extend_all}
use autonomous_game_agent.Manager.Task.{no_empty_text}
use autonomous_game_agent.Manager.TargetRef.{
  SkillName, TargetType, GroundedTarget, GroundingResult, target_requirement_for_skill,
}
use autonomous_game_agent.Manager.Grounding.{
  GroundingRequest, GroundingPolicy, VisibleCandidate, grounded_on,
}
use autonomous_game_agent.Manager.Grounding
use autonomous_game_agent.Manager.TaskManager.{validated_target, target_is}
use autonomous_game_agent.Manager.TaskManager.Target.{
  Fits, validated_target-Fits, grounded_result_is_accepted,
}
use autonomous_game_agent.Samples.{exploring, point_target}

abbrev named : TargetType → VisibleCandidate → List String → String
named t c ids = "target-1"

abbrev policy : GroundingPolicy
policy = record { min_confidence = 5 }

abbrev request : GroundingRequest
request = record {
  selected_skill = SkillName.basic_reach_target;
  semantic_goal = "reach";
  evidence_scope_ids = "shot-2" ∷ [];
}

abbrev found : GroundedTarget
found =
    GroundedTarget.visible_screen_point
      (record point_target { evidence_ids = "shot-2" ∷ "sprite-1" ∷ [] })

abbrev result : GroundingResult
result = grounded_on found ("shot-2" ∷ "sprite-1" ∷ [])

validated_target-Fits_example :
    Fits SkillName.basic_reach_target
      (some result)
      (validated_target SkillName.basic_reach_target (some result))
validated_target-Fits_example = validated_target-Fits SkillName.basic_reach_target (some result)

grounded_result_is_accepted_example :
    validated_target SkillName.basic_reach_target (some result) ≡ target_is (some found)
unfolding Grounding.ground target_requirement_for_skill extend_all no_empty_text
grounded_result_is_accepted_example =
    grounded_result_is_accepted named policy request exploring result refl refl
