-- ===== src/Manager/TaskManager.antt =====
-- src/fh_agent/manager/task_manager.py: the target and the evidence of a task. The scans of a plan for
-- unsafe content and the digest in a task's ID are not here.
pub mod Target
pub mod Create
pub mod Evidence
mod Tests
use autonomous_game_agent.Prelude.{
  ℕ, String, Bool, true, false, not, Option, none, some, List, [], ◌∷◌, if◌then◌else◌, is_none,
  ◌==◌,
}
use autonomous_game_agent.Prelude.Ids.{extend_all}
use autonomous_game_agent.Manager.TargetRef.{
  SkillName, GroundedTarget, TargetType, TargetRequirement, GroundingStatus, GroundingFailureReason,
  GroundingResult, target_requirement_for_skill, target_type, target_evidence_ids,
}

pub data ManagerGroundingErrorCode : Type 0 where
  missing_grounding grounding_failed unexpected_grounding : ManagerGroundingErrorCode
  incompatible_target_type unsupported_skill_target_contract : ManagerGroundingErrorCode

pub record ManagerGroundingError : Type 0 where
  pub selected_skill : SkillName
  pub error_code : ManagerGroundingErrorCode
  pub failure_reason : Option GroundingFailureReason
  pub evidence_ids : List String

pub data Validated : Type 0 where
  target_is : Option GroundedTarget → Validated
  rejected : ManagerGroundingError → Validated

-- the evidence IDs of a target that may be missing
abbrev pub evidence_of_target : Option GroundedTarget → List String
unfolding target_evidence_ids
evidence_of_target none = []
evidence_of_target (some t) = target_evidence_ids t

-- `_grounding_evidence_ids`
unfoldable pub grounding_evidence_ids : GroundingResult → List String
unfolding evidence_of_target
grounding_evidence_ids r = extend_all [] (r.evidence_ids ∷ evidence_of_target r.target ∷ [])

-- `ManagerGroundingError(...)`, with its IDs made distinct
unfoldable pub error :
    SkillName
    → ManagerGroundingErrorCode
    → Option GroundingFailureReason
    → List String
    → ManagerGroundingError
error skill code reason ids = record {
  selected_skill = skill;
  error_code = code;
  failure_reason = reason;
  evidence_ids = extend_all [] (ids ∷ []);
}

-- `==` on the target types
unfoldable pub type_eq : TargetType → TargetType → Bool
type_eq TargetType.screen_point TargetType.screen_point = true
type_eq TargetType.object TargetType.object = true
type_eq TargetType.screen_point TargetType.object = false
type_eq TargetType.object TargetType.screen_point = false

-- the end of `_validated_target`, for a grounding that did not fail
unfoldable pub fitting_target :
    SkillName → TargetType → GroundingResult → Option GroundedTarget → Validated
unfolding type_eq target_type grounding_evidence_ids error
fitting_target skill type r none =
    rejected (error skill ManagerGroundingErrorCode.missing_grounding none r.evidence_ids)
fitting_target skill type r (some t) =
    if not (type_eq (target_type t) type)
    then rejected (
        error skill ManagerGroundingErrorCode.incompatible_target_type none
          (grounding_evidence_ids r))
    else target_is (some t)

unfoldable pub targeted : SkillName → TargetType → Option GroundingResult → Validated
unfolding fitting_target error
targeted skill type none =
    rejected (error skill ManagerGroundingErrorCode.missing_grounding none [])
targeted skill type (some r) = elim r.status [
  | GroundingStatus.grounding_failed ↦
      rejected
        (error skill ManagerGroundingErrorCode.grounding_failed r.failure_reason r.evidence_ids)
  | GroundingStatus.grounded ↦ fitting_target skill type r r.target
]

unfoldable pub targetless : SkillName → Option GroundingResult → Validated
unfolding grounding_evidence_ids error
targetless skill none = target_is none
targetless skill (some r) = rejected (
    error skill ManagerGroundingErrorCode.unexpected_grounding r.failure_reason
      (grounding_evidence_ids r))

-- `_validated_target`
unfoldable pub validated_target : SkillName → Option GroundingResult → Validated
unfolding targeted targetless error
validated_target skill grounding_result = elim (target_requirement_for_skill skill) [
  | none ↦
      rejected (error skill ManagerGroundingErrorCode.unsupported_skill_target_contract none [])
  | some TargetRequirement.targetless ↦ targetless skill grounding_result
  | some (TargetRequirement.of_type type) ↦ targeted skill type grounding_result
]

-- `grounding_result.evidence_ids`, for a result that may be missing
abbrev pub evidence_of_grounding : Option GroundingResult → List String
evidence_of_grounding none = []
evidence_of_grounding (some r) = r.evidence_ids

-- `_source_evidence_ids`, on the IDs of the plan's claims and of its memory updates
unfoldable pub source_evidence_ids :
    List (List String)
    → List (List String)
    → Option GroundingResult
    → Option GroundedTarget
    → List String
unfolding evidence_of_target
source_evidence_ids claim_ids update_ids grounding_result target =
    extend_all
      (extend_all (extend_all (extend_all [] claim_ids) update_ids)
        (evidence_of_target target ∷ []))
      (evidence_of_grounding grounding_result ∷ [])
