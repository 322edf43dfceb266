-- ===== src/Manager/SkillRunner/Results.antt =====
-- The results that src/fh_agent/manager/skill_runner.py builds, apart from its effects.
use autonomous_game_agent.Prelude.{
  String, Bool, true, false, Option, none, some, List, [], ◌∷◌, ◌&&◌, ◌||◌, if◌then◌else◌, is_true,
  str_eq, last?,
}
use autonomous_game_agent.Game.Call.{Call, returns, raises}
use autonomous_game_agent.Observation.{
  Observation, UiState, ui_eq, ActionResult, SkillResult, has_text,
}
use autonomous_game_agent.Verifier.Schemas.{
  VerifierStatus, FailureKind, VerifierResult, failure_kind_value,
}
use autonomous_game_agent.Manager.Reward.{VerifiedRewardBreakdown}
use autonomous_game_agent.Manager.Task.{ManagerStopResult, stop_accepted}
use autonomous_game_agent.Manager.EventLog.{EventRecord}
use autonomous_game_agent.Manager.SkillContract.{
  SkillContract, SkillStep, detects_combat, merged_evidence_ids,
}

pub record SkillRunResult : Type 0 where
  pub skill_result : SkillResult
  pub verifier_result : Option VerifierResult
  pub verifier_event_records : List EventRecord
  pub verified_reward_breakdowns : List VerifiedRewardBreakdown
  pub reward_event_records : List EventRecord
  pub action_execution_results : List ActionResult
  pub action_event_records : List EventRecord
  pub manager_stop_result : Option ManagerStopResult
  pub manager_stop_event_record : Option EventRecord
  pub steps : List SkillStep
  pub event_record : Option EventRecord

-- the evidence of a verdict that ends the run, if there is one
abbrev pub verdict_evidence : Option VerifierResult → List String → List String
verdict_evidence none merged = merged
verdict_evidence (some r) merged = elim r.status [
  | VerifierStatus.success ↦ r.evidence_ids
  | VerifierStatus.failure ↦ r.evidence_ids
  | _ ↦ merged
]

-- `_legacy_result`
unfoldable pub legacy_result :
    SkillContract
    → Observation
    → Observation
    → Bool
    → Option String
    → Option VerifierResult
    → SkillResult
legacy_result contract before after success failure_reason verifier_result = record {
  skill_name = contract.skill_name;
  success = success;
  evidence_ids = verdict_evidence verifier_result (merged_evidence_ids (before ∷ after ∷ []));
  failure_reason = failure_reason;
}

-- `_combat_is_legacy_failure`
unfoldable pub combat_is_legacy_failure : SkillContract → Observation → Bool
combat_is_legacy_failure contract o =
    detects_combat contract.failure_detector
    && (ui_eq o.ui_state UiState.combat || is_true o.combat_ui_visible)

-- `_failure_reason`; without a failure kind it raises
unfoldable pub failure_reason : Option FailureKind → Call String
failure_reason none = raises
failure_reason (some FailureKind.death) = returns "death_screen"
failure_reason (some k) = returns (failure_kind_value k)

abbrev ended :
    SkillContract
    → Observation
    → Observation
    → VerifierResult
    → Call String
    → Call (Option SkillResult)
ended contract before after r raises = raises
ended contract before after r (returns reason) =
    returns (some (legacy_result contract before after false (some reason) (some r)))

-- `_terminal_result`
unfoldable pub terminal_result :
    SkillContract → Observation → Observation → VerifierResult → Call (Option SkillResult)
unfolding legacy_result combat_is_legacy_failure failure_reason
terminal_result contract before after r = elim r.status [
  | VerifierStatus.success ↦ returns (some (legacy_result contract before after true none (some r)))
  | VerifierStatus.failure ↦ ended contract before after r (failure_reason r.failure_kind)
  | _ ↦
      if combat_is_legacy_failure contract after
      then returns (some (legacy_result contract before after false (some "combat_started") none))
      else returns none
]

-- the lookup of a blocked reason
unfoldable pub blocked_kind : Option String → Option FailureKind
blocked_kind none = none
blocked_kind (some reason) =
    if str_eq reason "not_focused"
    then some FailureKind.focus_lost
    else if str_eq reason "emergency_stop"
    then some FailureKind.safety_intervention
    else if str_eq reason "rate_limited"
    then some FailureKind.safety_intervention
    else none

abbrev stop_for :
    Option FailureKind
    → Option String
    → List String
    → Option String
    → Call (Option ManagerStopResult)
stop_for none reason ids trigger = returns none
stop_for (some k) none ids trigger = returns none
stop_for (some k) (some reason) ids trigger =
    let stop : ManagerStopResult = record {
      failure_kind = k;
      reason = reason;
      evidence_ids = ids;
      trigger_event_id = trigger;
    } in
    if stop_accepted stop then returns (some stop) else raises

-- `_manager_stop_for_blocked_action`; it raises where the model of the stop does
unfoldable pub manager_stop_for_blocked_action :
    ActionResult → Option String → Call (Option ManagerStopResult)
unfolding blocked_kind stop_accepted
manager_stop_for_blocked_action r trigger =
    stop_for (blocked_kind r.blocked_reason) r.blocked_reason r.evidence_ids trigger

-- `execution_result.blocked_reason or "input_blocked"`
abbrev pub blocked_text : Option String → String
blocked_text none = "input_blocked"
blocked_text (some reason) = if has_text (some reason) then reason else "input_blocked"

-- `action_event_records[-1].event_id if action_event_records else None`
abbrev pub last_id : List EventRecord → Option String
last_id records = elim (last? records) [ none ↦ none | some r ↦ some r.event_id ]
