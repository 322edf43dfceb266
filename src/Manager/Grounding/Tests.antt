-- ===== src/Manager/Grounding/Tests.antt =====
-- The theorems on grounding, at a screen with one confident sprite.
use autonomous_game_agent.Prelude.{ℕ, String, Option, none, some, List, [], ◌∷◌, ◌≡◌, ◌≢◌, refl}
use autonomous_game_agent.Prelude.Ids.{extend_all}
use autonomous_game_agent.Manager.Task.{no_empty_text}
use autonomous_game_agent.Game.Call.{Call, returns, raises}
use autonomous_game_agent.Manager.TargetRef.{
  SkillName, TargetType, TargetRequirement, GroundingResult, target_requirement_for_skill,
}
use autonomous_game_agent.Manager.Grounding.{GroundingRequest, GroundingPolicy, VisibleCandidate}
use autonomous_game_agent.Manager.Grounding
use autonomous_game_agent.Manager.Grounding.Sound.{grounding_is_sound}
use autonomous_game_agent.Manager.Grounding.Audit.{Promised, target_position}
use autonomous_game_agent.Manager.Grounding.Request.{
  build_grounding_request, IsOfScreen, request-IsOfScreen,
}
use autonomous_game_agent.Samples.{exploring}

abbrev named : TargetType → VisibleCandidate → List String → String
named t c ids = "target-0"

abbrev policy : GroundingPolicy
policy = record { min_confidence = 5 }

abbrev request : GroundingRequest
request = record {
  selected_skill = SkillName.basic_reach_target;
  semantic_goal = "reach";
  evidence_scope_ids = "shot-2" ∷ [];
}

abbrev place : Call GroundingResult → Option (ℕ × ℕ)
place raises = none
place (returns r) = elim r.target [ none ↦ none | some t ↦ some (target_position t) ]

-- the blurred sprite is passed over
chest_is_found : place (Grounding.ground named policy request exploring) ≡ some (7, 4)
unfolding Grounding.ground target_requirement_for_skill extend_all no_empty_text
chest_is_found = refl

grounding_is_sound_example :
    Promised policy request exploring (Grounding.ground named policy request exploring)
grounding_is_sound_example = grounding_is_sound policy request exploring named

targeted_skill :
    target_requirement_for_skill SkillName.basic_reach_target ≢ some TargetRequirement.targetless
unfolding target_requirement_for_skill
targeted_skill = λ h. cc

request-IsOfScreen_example :
    (r : GroundingRequest) × (build_grounding_request SkillName.basic_reach_target "reach" exploring
      ≡ returns (some r))
    × IsOfScreen SkillName.basic_reach_target "reach" exploring r
request-IsOfScreen_example =
    request-IsOfScreen SkillName.basic_reach_target "reach" exploring refl targeted_skill
