-- ===== src/Manager/SkillRunner/Locals.antt =====
-- The local state of `SkillRunner.run`, and the steps that only log, verify or finish.
use autonomous_game_agent.Prelude.{
  ℕ, String, Bool, false, not, Option, none, some, List, [], ◌∷◌, ◌++◌, if◌then◌else◌, length,
}
use autonomous_game_agent.Game.Call.{Call, returns, raises}
use autonomous_game_agent.Observation.{Observation, ActionResult, SkillResult}
use autonomous_game_agent.Verifier.Schemas.{VerifierResult}
use autonomous_game_agent.Manager.Reward.{VerifiedRewardBreakdown, derive_verified_reward}
use autonomous_game_agent.Manager.Task.{ManagerStopResult}
use autonomous_game_agent.Manager.EventLog.{
  EventRecord, Log, append_skill_result, append_action_result, append_manager_stop,
  append_verifier_result, append_verified_reward,
}
use autonomous_game_agent.Manager.SkillContract.{SkillContract, SkillStep}
use autonomous_game_agent.Manager.SkillRunner.Runtime.{Verifier}
use autonomous_game_agent.Manager.SkillRunner.Results.{SkillRunResult, legacy_result}

-- The local variables of `run`, with the world and the log.
pub record Locals (W : Type 0) : Type 0 where
  pub world : W
  pub log : Log
  pub start : Observation
  pub latest : Observation
  pub verdict : Option VerifierResult
  pub steps : List SkillStep
  pub verifier_records : List EventRecord
  pub breakdowns : List VerifiedRewardBreakdown
  pub reward_records : List EventRecord
  pub action_results : List ActionResult
  pub action_records : List EventRecord

-- how a run ends
pub record Outcome (W : Type 0) : Type 0 where
  pub answer : Call SkillRunResult
  pub world : W
  pub log : Log

-- how one round of the loop ends
pub data Round (W : Type 0) : Type 0 where
  finished : Outcome W → Round W
  continues : Locals W → Round W

abbrev pub crash : {W : Type 0} → Locals W → Outcome W
crash l = record { answer = raises; world = l.world; log = l.log }

module _ (fresh : ℕ → String) (logging : Bool) where
  -- `_append_manager_stop_event`
  unfoldable pub append_manager_stop_event :
      Option ManagerStopResult → String → ℕ → Log → Option EventRecord × Log
  append_manager_stop_event none skill_name steps_taken log = (none, log)
  append_manager_stop_event (some stop) skill_name steps_taken log =
      if not logging
      then (none, log)
      else (let (r, log') = append_manager_stop fresh stop skill_name steps_taken log in
          (some r, log'))

  -- the event of the skill result, in `_finish`
  unfoldable pub append_result_event : SkillResult → Log → Option EventRecord × Log
  append_result_event result log =
      if not logging
      then (none, log)
      else (let (e, log') = append_skill_result fresh result log in (some e, log'))

  module _ {W : Type 0} where
    -- `_append_action_event`, for the action result that is the last of `action_results`
    unfoldable pub append_action_event :
        ActionResult → String → ℕ → Observation → Option Observation → Locals W → Locals W
    append_action_event r skill_name step_index before after l =
        if not logging
        then l
        else (let (e, log') =
              append_action_result fresh r skill_name step_index
                (before.observation_id, elim after [ none ↦ none | some o ↦ o.observation_id ])
                (before.evidence_ids, elim after [ none ↦ [] | some o ↦ o.evidence_ids ]) l.log in
            record l { log = log'; action_records = l.action_records ++ e ∷ [] })

    -- `_finish`
    unfoldable pub finish :
        SkillResult → Option ManagerStopResult → Option EventRecord → Locals W → Outcome W
    unfolding append_result_event
    finish result stop stop_record l =
        let (record_of, log') = append_result_event result l.log in
        record {
          answer = returns (record {
            skill_result = result;
            verifier_result = l.verdict;
            verifier_event_records = l.verifier_records;
            verified_reward_breakdowns = l.breakdowns;
            reward_event_records = l.reward_records;
            action_execution_results = l.action_results;
            action_event_records = l.action_records;
            manager_stop_result = stop;
            manager_stop_event_record = stop_record;
            steps = l.steps;
            event_record = record_of;
          });
          world = l.world;
          log = log';
        }

    -- a finish on a Manager stop, with its event
    unfoldable pub stop_run :
        SkillContract → String → Option ManagerStopResult → Locals W → Outcome W
    unfolding append_manager_stop_event finish legacy_result
    stop_run contract reason stop l =
        let (stop_record, log') =
          append_manager_stop_event stop contract.skill_name (length l.steps) l.log in
        finish (legacy_result contract l.start l.latest false (some reason) none) stop stop_record
          (record l { log = log' })

    -- the reward event of a verdict that was logged; it raises on an empty event ID
    unfoldable pub append_reward_event :
        VerifiedRewardBreakdown
        → String
        → Option EventRecord
        → Locals W
        → Call (Unit {0}) × Locals W
    append_reward_event reward skill_name none l = (returns tt, l)
    append_reward_event reward skill_name (some e) l =
        elim (append_verified_reward fresh reward skill_name e.event_id l.log) [
          | none ↦ (raises, l)
          | some (r, log') ↦
              (returns tt, record l { log = log'; reward_records = l.reward_records ++ r ∷ [] })
        ]

    -- the verifier event of a verdict
    unfoldable pub append_verdict_event :
        VerifierResult
        → String
        → ℕ
        → Observation
        → Observation
        → Locals W
        → Option EventRecord × Locals W
    append_verdict_event r skill_name steps_taken before after l =
        if not logging
        then (none, l)
        else (let (e, log') =
              append_verifier_result fresh r skill_name steps_taken
                (before.observation_id, after.observation_id) l.log in
            (some e, record l { log = log'; verifier_records = l.verifier_records ++ e ∷ [] }))

    -- `_verify`, and what the loop does with its answer
    unfoldable pub verify : Verifier → SkillContract → Locals W → Call (Unit {0}) × Locals W
    unfolding append_verdict_event append_reward_event
    verify verifier contract l =
        let result = verifier l.start l.latest in
        let (event, l') =
          append_verdict_event result contract.skill_name (length l.steps) l.start l.latest
            (record l { verdict = some result }) in
        let reward = derive_verified_reward contract.reward_profile result in
        append_reward_event reward contract.skill_name event
          (record l' { breakdowns = l.breakdowns ++ reward ∷ [] })
