-- ===== src/Manager/TargetRef.antt =====
-- src/fh_agent/manager/target_ref.py and skill_target_requirements.py, with the skill names of
-- skill_capabilities.py: what a task may aim at, and the outcome of grounding.
use autonomous_game_agent.Prelude.{ℕ, String, Bool, not, Option, none, some, List, ◌&&◌, is_none}

pub data SkillName : Type 0 where
  continue_dialogue basic_reach_target interact_visible interact_visible_object : SkillName
  safe_reach_target : SkillName

unfoldable pub skill_text : SkillName → String
skill_text SkillName.continue_dialogue = "continue_dialogue"
skill_text SkillName.basic_reach_target = "basic_reach_target"
skill_text SkillName.interact_visible = "interact_visible"
skill_text SkillName.interact_visible_object = "interact_visible_object"
skill_text SkillName.safe_reach_target = "safe_reach_target"

-- A screen coordinate is at least 0, so a natural number; so is a confidence, in the units of
-- `Observation`.
pub record VisibleScreenPointTarget : Type 0 where
  pub target_id : String
  pub confidence : ℕ
  pub evidence_ids : List String
  pub screen_position : ℕ × ℕ

pub record VisibleObjectTarget : Type 0 where
  pub target_id : String
  pub confidence : ℕ
  pub evidence_ids : List String
  pub screen_position : ℕ × ℕ
  pub visual_hash : Option String

pub data GroundedTarget : Type 0 where
  visible_screen_point : VisibleScreenPointTarget → GroundedTarget
  visible_object : VisibleObjectTarget → GroundedTarget

pub data TargetType : Type 0 where
  screen_point object : TargetType

pub data TargetRequirement : Type 0 where
  targetless : TargetRequirement
  of_type : TargetType → TargetRequirement

-- `target.target_type`
unfoldable pub target_type : GroundedTarget → TargetType
target_type (GroundedTarget.visible_screen_point t) = TargetType.screen_point
target_type (GroundedTarget.visible_object t) = TargetType.object

unfoldable pub target_evidence_ids : GroundedTarget → List String
target_evidence_ids (GroundedTarget.visible_screen_point t) = t.evidence_ids
target_evidence_ids (GroundedTarget.visible_object t) = t.evidence_ids

pub data GroundingStatus : Type 0 where
  grounded grounding_failed : GroundingStatus

pub data GroundingFailureReason : Type 0 where
  no_visible_candidate ambiguous_candidates insufficient_evidence : GroundingFailureReason
  insufficient_confidence unsupported_target_type stale_evidence : GroundingFailureReason

pub record GroundingResult : Type 0 where
  pub status : GroundingStatus
  pub target : Option GroundedTarget
  pub failure_reason : Option GroundingFailureReason
  pub evidence_ids : List String

-- `enforce_status_contract`: true where the validator returns, false where it raises.
unfoldable pub enforce_status_contract : GroundingResult → Bool
enforce_status_contract r = elim r.status [
  | GroundingStatus.grounded ↦ not (is_none r.target) && is_none r.failure_reason
  | GroundingStatus.grounding_failed ↦ is_none r.target && not (is_none r.failure_reason)
]

-- `SKILL_TARGET_REQUIREMENTS.get(skill_name)`
unfoldable pub target_requirement_for_skill : SkillName → Option TargetRequirement
target_requirement_for_skill SkillName.continue_dialogue = some TargetRequirement.targetless
target_requirement_for_skill SkillName.basic_reach_target =
    some (TargetRequirement.of_type TargetType.screen_point)
target_requirement_for_skill SkillName.interact_visible_object =
    some (TargetRequirement.of_type TargetType.object)
target_requirement_for_skill SkillName.interact_visible = none
target_requirement_for_skill SkillName.safe_reach_target = none
