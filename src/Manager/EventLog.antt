-- ===== src/Manager/EventLog.antt =====
-- src/fh_agent/memory/event_log.py: the append-only log of a run, as far as the skill runner uses it.
-- Writing to the file is taken to succeed. The ID factory is an argument: the ID of the n-th record.
use autonomous_game_agent.Prelude.{
  ℕ, String, Option, none, some, List, [], ◌∷◌, ◌++◌, length, if◌then◌else◌, str_eq,
}
use autonomous_game_agent.Observation.{ActionResult, SkillResult}
use autonomous_game_agent.Verifier.Schemas.{VerifierResult}
use autonomous_game_agent.Manager.Reward.{VerifiedRewardBreakdown}
use autonomous_game_agent.Manager.Task.{ManagerStopResult}

-- the payloads, by event type
pub data Payload : Type 0 where
  skill_result : SkillResult → Payload
  -- skill name, step index, observation IDs before and after, evidence IDs before and after
  action_result :
      String
      → ℕ
      → Option String × Option String
      → List String × List String
      → ActionResult
      → Payload
  -- skill name, steps taken
  manager_stop : String → ℕ → ManagerStopResult → Payload
  verifier_result : String → ℕ → Option String × Option String → VerifierResult → Payload
  -- skill name, ID of the verifier event
  verified_reward : String → String → VerifiedRewardBreakdown → Payload

pub record EventRecord : Type 0 where
  pub event_id : String
  pub payload : Payload
  pub evidence_ids : List String

abbrev pub Log : Type 0
Log = List EventRecord

module _ (fresh : ℕ → String) where
  -- `append`: the record, and the log with it at the end
  unfoldable pub append : Payload → List String → Log → EventRecord × Log
  append payload evidence_ids log =
      let r : EventRecord = record {
        event_id = fresh (length log);
        payload = payload;
        evidence_ids = evidence_ids;
      } in
      (r, log ++ r ∷ [])

  unfoldable pub append_skill_result : SkillResult → Log → EventRecord × Log
  unfolding append
  append_skill_result r = append (skill_result r) r.evidence_ids

  unfoldable pub append_action_result :
      ActionResult
      → String
      → ℕ
      → Option String × Option String
      → List String × List String
      → Log
      → EventRecord × Log
  unfolding append
  append_action_result r skill_name step_index ids evidence =
      append (action_result skill_name step_index ids evidence r) r.evidence_ids

  unfoldable pub append_manager_stop : ManagerStopResult → String → ℕ → Log → EventRecord × Log
  unfolding append
  append_manager_stop r skill_name steps_taken =
      append (manager_stop skill_name steps_taken r) r.evidence_ids

  unfoldable pub append_verifier_result :
      VerifierResult → String → ℕ → Option String × Option String → Log → EventRecord × Log
  unfolding append
  append_verifier_result r skill_name steps_taken ids =
      append (verifier_result skill_name steps_taken ids r) r.evidence_ids

  -- `none` where it raises
  unfoldable pub append_verified_reward :
      VerifiedRewardBreakdown → String → String → Log → Option (EventRecord × Log)
  unfolding append
  append_verified_reward r skill_name verifier_event_id log =
      if str_eq verifier_event_id ""
      then none
      else some (
          append (verified_reward skill_name verifier_event_id r) r.verifier_result.evidence_ids
            log)
