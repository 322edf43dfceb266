-- ===== src/Manager/TaskManager/Target.antt =====
-- Which targets the Task Manager accepts, and that grounding produces those.
use mathlib.Core.Path.{subst}
use autonomous_game_agent.Prelude.{
  String, true, false, not, Option, none, some, List, [], ◌∷◌, ◌≡◌, refl, if_holds,
}
use autonomous_game_agent.Prelude.Ids.{NoRepeats, extend_all-NoRepeats}
use autonomous_game_agent.Game.Call.{returns}
use autonomous_game_agent.Observation.{Observation}
use autonomous_game_agent.Manager.TargetRef.{
  SkillName, GroundedTarget, TargetType, TargetRequirement, GroundingStatus, GroundingFailureReason,
  GroundingResult, target_requirement_for_skill, target_type,
}
use autonomous_game_agent.Manager.Grounding.{GroundingRequest, GroundingPolicy, VisibleCandidate}
use autonomous_game_agent.Manager.Grounding
use autonomous_game_agent.Manager.Grounding.Sound.{grounding_is_sound}
use autonomous_game_agent.Manager.Grounding.Audit.{Promised, IsOnTarget}
use autonomous_game_agent.Manager.TaskManager.{
  Validated, target_is, rejected, ManagerGroundingErrorCode, error, type_eq, fitting_target,
  targeted, targetless, validated_target, grounding_evidence_ids,
}

-- An accepted target: none, for a skill without target and without a grounding; or the target of a
-- grounding that did not fail, of the type that the skill requires. A rejection has distinct IDs.
abbrev pub Fits : SkillName → Option GroundingResult → Validated → Type 0
Fits skill g (rejected e) = (e.selected_skill ≡ skill) × NoRepeats e.evidence_ids
Fits skill g (target_is none) =
    (target_requirement_for_skill skill ≡ some TargetRequirement.targetless) × (g ≡ none)
Fits skill g (target_is (some t)) =
    (r : GroundingResult) × (g ≡ some r)
    × (r.status ≡ GroundingStatus.grounded)
    × (r.target ≡ some t)
    × (target_requirement_for_skill skill ≡ some (TargetRequirement.of_type (target_type t)))

type_eq_sound : (a b : TargetType) → not (type_eq a b) ≡ false → b ≡ a
unfolding type_eq
type_eq_sound TargetType.screen_point TargetType.screen_point h = refl
type_eq_sound TargetType.object TargetType.object h = refl
type_eq_sound TargetType.screen_point TargetType.object h = cc
type_eq_sound TargetType.object TargetType.screen_point h = cc

type_eq_refl : (a : TargetType) → type_eq a a ≡ true
unfolding type_eq
type_eq_refl TargetType.screen_point = refl
type_eq_refl TargetType.object = refl

rejected-Fits :
    (skill : SkillName) (g : Option GroundingResult) (code : ManagerGroundingErrorCode)
    (reason : Option GroundingFailureReason) (ids : List String)
    → Fits skill g (rejected (error skill code reason ids))
unfolding error
rejected-Fits skill g code reason ids = (refl, extend_all-NoRepeats [] (ids ∷ []) tt)

fitting_target-Fits :
    (skill : SkillName) (type : TargetType) (r : GroundingResult) (t : Option GroundedTarget)
    → target_requirement_for_skill skill ≡ some (TargetRequirement.of_type type)
    → r.status ≡ GroundingStatus.grounded
    → r.target ≡ t
    → Fits skill (some r) (fitting_target skill type r t)
unfolding fitting_target
fitting_target-Fits skill type r none w s h =
    rejected-Fits skill (some r) ManagerGroundingErrorCode.missing_grounding none r.evidence_ids
fitting_target-Fits skill type r (some t) w s h =
    if_holds (Fits skill (some r)) (not (type_eq (target_type t) type))
      (λ k.
        rejected-Fits skill (some r) ManagerGroundingErrorCode.incompatible_target_type none
          (grounding_evidence_ids r))
      (λ k.
        let same : type ≡ target_type t = type_eq_sound (target_type t) type k in
        (r, refl, s, h, rw w (rw same refl)))

targeted-Fits :
    (skill : SkillName) (type : TargetType) (g : Option GroundingResult)
    → target_requirement_for_skill skill ≡ some (TargetRequirement.of_type type)
    → Fits skill g (targeted skill type g)
unfolding targeted
targeted-Fits skill type none w =
    rejected-Fits skill none ManagerGroundingErrorCode.missing_grounding none []
targeted-Fits skill type (some r) w = at r.status refl
  where
    at :
        (s : GroundingStatus)
        → r.status ≡ s
        → Fits skill (some r) (elim s as (λ _. Validated) [
          | GroundingStatus.grounding_failed ↦ rejected (
              error skill ManagerGroundingErrorCode.grounding_failed r.failure_reason
                r.evidence_ids)
          | GroundingStatus.grounded ↦ fitting_target skill type r r.target
        ])
    at GroundingStatus.grounding_failed h =
        rejected-Fits skill (some r) ManagerGroundingErrorCode.grounding_failed r.failure_reason
          r.evidence_ids
    at GroundingStatus.grounded h = fitting_target-Fits skill type r r.target w h refl

-- The target that the Task Manager accepts for a skill is none, for a targetless skill without a
-- grounding, or the target of a grounding that did not fail, of the type that the skill requires; a
-- rejection names the skill and has distinct evidence IDs.
pub validated_target-Fits :
    (skill : SkillName) (g : Option GroundingResult) → Fits skill g (validated_target skill g)
unfolding validated_target targetless
validated_target-Fits skill g = at (target_requirement_for_skill skill) refl g
  where
    at :
        (t : Option TargetRequirement)
        → target_requirement_for_skill skill ≡ t
        → (g : Option GroundingResult)
        → Fits skill g (elim t as (λ _. Validated) [
          | none ↦
              rejected
                (error skill ManagerGroundingErrorCode.unsupported_skill_target_contract none [])
          | some TargetRequirement.targetless ↦ targetless skill g
          | some (TargetRequirement.of_type type) ↦ targeted skill type g
        ])
    at none w g =
        rejected-Fits skill g ManagerGroundingErrorCode.unsupported_skill_target_contract none []
    at (some TargetRequirement.targetless) w none = (w, refl)
    at (some TargetRequirement.targetless) w (some r) =
        rejected-Fits skill (some r) ManagerGroundingErrorCode.unexpected_grounding r.failure_reason
          (grounding_evidence_ids r)
    at (some (TargetRequirement.of_type type)) w g = targeted-Fits skill type g w

-- A grounding of a request that returns a grounded result is accepted for the skill of the request, with
-- the target of the result.
pub grounded_result_is_accepted :
    (target_id_for : TargetType → VisibleCandidate → List String → String)
    (policy : GroundingPolicy) (request : GroundingRequest) (o : Observation) (r : GroundingResult)
    → Grounding.ground target_id_for policy request o ≡ returns r
    → r.status ≡ GroundingStatus.grounded
    → validated_target request.selected_skill (some r) ≡ target_is r.target
unfolding validated_target targeted fitting_target
grounded_result_is_accepted target_id_for policy request o r h s =
    let promised : Promised policy request o (returns r) =
      subst (Promised policy request o) h (grounding_is_sound policy request o target_id_for) in
    let on : IsOnTarget policy request o r = promised.on_target s in
    rw
      (
        validated_target,
        on.wanted,
        targeted,
        s,
        on.held,
        fitting_target,
        on.fits,
        type_eq_refl on.type,
      )
      refl
