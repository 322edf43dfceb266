-- ===== src/Manager/SkillContract.antt =====
-- src/fh_agent/manager/skill_contracts.py, and the `RunnableSkill` protocol of skill_runner.py.
use autonomous_game_agent.Prelude.{
  ℕ, String, Bool, true, false, not, List, [], ◌∷◌, ◌||◌, is_empty, is_true,
}
use autonomous_game_agent.Prelude.Ids.{extend_all}
use autonomous_game_agent.Body.Actions.{PrimitiveAction}
use autonomous_game_agent.Observation.{Observation, UiState, ui_eq, has_text}
use autonomous_game_agent.Manager.Reward.{RewardProfile}

pub data SkillCondition : Type 0 where
  dialogue_visible dialogue_closed interaction_target_visible : SkillCondition
  interaction_outcome_visible reach_target_visible player_position_visible : SkillCondition
  target_reached visible_text_changed new_evidence screen_signature_changed : SkillCondition
  death_screen combat_started timeout no_progress repeated_no_change : SkillCondition

pub record SkillContract : Type 0 where
  pub skill_name : String
  pub allowed_actions : List PrimitiveAction
  pub preconditions : List SkillCondition
  pub success_detector : List SkillCondition
  pub failure_detector : List SkillCondition
  pub max_steps : ℕ
  pub reward_profile : RewardProfile

pub record SkillStep : Type 0 where
  pub skill_name : String
  pub action : PrimitiveAction
  pub step_index : ℕ
  pub reason : String
  pub evidence_ids : List String

-- `"combat_started" in detector`
unfoldable pub detects_combat : List SkillCondition → Bool
detects_combat [] = false
detects_combat (SkillCondition.combat_started ∷ cs) = true
detects_combat (c ∷ cs) = detects_combat cs

unfoldable pub is_dialogue_observation : Observation → Bool
is_dialogue_observation o =
    ui_eq o.ui_state UiState.dialogue
    || is_true o.message_window_visible
    || has_text o.visible_message_text
    || not (is_empty o.visible_text_spans)

abbrev evidence_of : List Observation → List (List String)
evidence_of [] = []
evidence_of (o ∷ os) = o.evidence_ids ∷ evidence_of os

unfoldable pub merged_evidence_ids : List Observation → List String
merged_evidence_ids observations = extend_all [] (evidence_of observations)

pub record RunnableSkill : Type 0 where
  pub contract : SkillContract
  pub can_start : Observation → Bool
  pub next_action : Observation → ℕ → SkillStep
