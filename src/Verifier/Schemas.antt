-- ===== src/Verifier/Schemas.antt =====
-- src/fh_agent/verifier/schemas.py, and the death-screen test that the three verifiers share.
use autonomous_game_agent.Prelude.{
  String, Bool, not, Option, none, some, List, [], is_none, is_true, ◌||◌,
}
use autonomous_game_agent.Observation.{Observation, UiState, ui_eq}

pub data VerifierStatus : Type 0 where
  success progress failure abstain : VerifierStatus

pub data FailureKind : Type 0 where
  perception_uncertain grounding_failed capability_rejected planning_failed : FailureKind
  skill_failed no_progress timeout target_lost safety_intervention focus_lost : FailureKind
  death replan_required contaminated : FailureKind

-- the values of the StrEnum
unfoldable pub failure_kind_value : FailureKind → String
failure_kind_value FailureKind.perception_uncertain = "perception_uncertain"
failure_kind_value FailureKind.grounding_failed = "grounding_failed"
failure_kind_value FailureKind.capability_rejected = "capability_rejected"
failure_kind_value FailureKind.planning_failed = "planning_failed"
failure_kind_value FailureKind.skill_failed = "skill_failed"
failure_kind_value FailureKind.no_progress = "no_progress"
failure_kind_value FailureKind.timeout = "timeout"
failure_kind_value FailureKind.target_lost = "target_lost"
failure_kind_value FailureKind.safety_intervention = "safety_intervention"
failure_kind_value FailureKind.focus_lost = "focus_lost"
failure_kind_value FailureKind.death = "death"
failure_kind_value FailureKind.replan_required = "replan_required"
failure_kind_value FailureKind.contaminated = "contaminated"

pub record VerifierResult : Type 0 where
  pub status : VerifierStatus
  pub failure_kind : Option FailureKind
  pub evidence_ids : List String

-- true where the validator returns, false where it raises
unfoldable pub failure_kind_matches_status : VerifierResult → Bool
failure_kind_matches_status r = elim r.status [
  | VerifierStatus.failure ↦ not (is_none r.failure_kind)
  | _ ↦ is_none r.failure_kind
]

-- The keyword defaults of the constructor.
abbrev pub abstention : VerifierResult
abstention = record { status = VerifierStatus.abstain; failure_kind = none; evidence_ids = [] }

abbrev pub success_with : List String → VerifierResult
success_with ids = record {
  status = VerifierStatus.success;
  failure_kind = none;
  evidence_ids = ids;
}

abbrev pub death_with : List String → VerifierResult
death_with ids = record {
  status = VerifierStatus.failure;
  failure_kind = some FailureKind.death;
  evidence_ids = ids;
}

unfoldable pub visibly_dead : Observation → Bool
visibly_dead o = ui_eq o.ui_state UiState.death || is_true o.death_screen_visible
