-- ===== src/Body/Skills.antt =====
-- src/fh_agent/body/skills: continue_dialogue.py, interact_visible.py and basic_reach_target.py. A skill
-- built with its defaults has the default reward profile of its name.
pub mod Proposals
pub mod Approach
mod Tests
use autonomous_game_agent.Prelude.{
  ℕ, String, Bool, true, false, not, Option, none, some, List, [], ◌∷◌, ◌&&◌, ◌||◌, if◌then◌else◌,
  is_empty, is_none, leb,
}
use autonomous_game_agent.Prelude.Int.{ℤ, pos, negsuc, ◌-ℤ◌, abs, ltb_ℤ}
use autonomous_game_agent.Prelude.Ids.{extend_new}
use autonomous_game_agent.Body.Actions.{PrimitiveAction}
use autonomous_game_agent.Observation.{Observation}
use autonomous_game_agent.Manager.Reward.{RewardProfile}
use autonomous_game_agent.Manager.TargetRef.{VisibleScreenPointTarget, VisibleObjectTarget}
use autonomous_game_agent.Manager.SkillContract.{
  SkillCondition, SkillContract, SkillStep, RunnableSkill, is_dialogue_observation,
}

abbrev dialogue_contract : ℕ → RewardProfile → SkillContract
dialogue_contract max_steps profile = record {
  skill_name = "continue_dialogue";
  allowed_actions = PrimitiveAction.confirm ∷ PrimitiveAction.wait ∷ [];
  preconditions = SkillCondition.dialogue_visible ∷ [];
  success_detector = SkillCondition.visible_text_changed ∷ SkillCondition.dialogue_closed ∷ [];
  failure_detector =
      SkillCondition.death_screen ∷ SkillCondition.timeout ∷ SkillCondition.repeated_no_change ∷ [];
  max_steps = max_steps;
  reward_profile = profile;
}

unfoldable pub dialogue_next_action : Observation → ℕ → SkillStep
dialogue_next_action o step_index =
    if is_dialogue_observation o
    then record {
      skill_name = "continue_dialogue";
      action = PrimitiveAction.confirm;
      step_index = step_index;
      reason = "dialogue_visible";
      evidence_ids = o.evidence_ids;
    }
    else record {
      skill_name = "continue_dialogue";
      action = PrimitiveAction.wait;
      step_index = step_index;
      reason = "precondition_not_met";
      evidence_ids = o.evidence_ids;
    }

-- `ContinueDialogueSkill`
unfoldable pub continue_dialogue_skill : ℕ → RewardProfile → RunnableSkill
unfolding dialogue_next_action
continue_dialogue_skill max_steps profile = record {
  contract = dialogue_contract max_steps profile;
  can_start = is_dialogue_observation;
  next_action = dialogue_next_action;
}

unfoldable pub has_visible_target : Observation → Bool
has_visible_target o =
    not (is_empty o.visible_sprites)
    || not (is_empty o.visible_sprite_screen_positions)
    || not (is_empty o.visible_sprite_visual_hashes)

unfoldable pub object_step_evidence_ids : Observation → Option VisibleObjectTarget → List String
object_step_evidence_ids o none = o.evidence_ids
object_step_evidence_ids o (some t) = extend_new o.evidence_ids t.evidence_ids

unfoldable pub interact_can_start : Option VisibleObjectTarget → Observation → Bool
unfolding has_visible_target
interact_can_start target o = not (is_none target) || has_visible_target o

unfoldable pub interact_next_action : Option VisibleObjectTarget → Observation → ℕ → SkillStep
unfolding interact_can_start object_step_evidence_ids
interact_next_action target o step_index =
    if interact_can_start target o
    then record {
      skill_name = "interact_visible_object";
      action = PrimitiveAction.confirm;
      step_index = step_index;
      reason = "interaction_target_visible";
      evidence_ids = object_step_evidence_ids o target;
    }
    else record {
      skill_name = "interact_visible_object";
      action = PrimitiveAction.wait;
      step_index = step_index;
      reason = "no_visible_interaction_target";
      evidence_ids = o.evidence_ids;
    }

abbrev interact_contract : ℕ → RewardProfile → SkillContract
interact_contract max_steps profile = record {
  skill_name = "interact_visible_object";
  allowed_actions = PrimitiveAction.confirm ∷ PrimitiveAction.wait ∷ [];
  preconditions = SkillCondition.interaction_target_visible ∷ [];
  success_detector =
      SkillCondition.dialogue_visible ∷ SkillCondition.interaction_outcome_visible ∷ [];
  failure_detector =
      SkillCondition.death_screen ∷ SkillCondition.timeout ∷ SkillCondition.repeated_no_change ∷ [];
  max_steps = max_steps;
  reward_profile = profile;
}

-- `InteractVisibleObjectSkill`
unfoldable pub interact_visible_object_skill :
    Option VisibleObjectTarget → ℕ → RewardProfile → RunnableSkill
unfolding interact_can_start interact_next_action
interact_visible_object_skill target max_steps profile = record {
  contract = interact_contract max_steps profile;
  can_start = interact_can_start target;
  next_action = interact_next_action target;
}

abbrev vertical : ℤ → PrimitiveAction
vertical delta_y =
    if ltb_ℤ (pos 0) delta_y
    then PrimitiveAction.move_down_short
    else if ltb_ℤ delta_y (pos 0)
    then PrimitiveAction.move_up_short
    else PrimitiveAction.wait

unfoldable pub movement_action_toward : ℤ × ℤ → ℤ × ℤ → PrimitiveAction
movement_action_toward (current_x, current_y) (target_x, target_y) =
    let delta_x = target_x -ℤ current_x in
    let delta_y = target_y -ℤ current_y in
    if leb (abs delta_y) (abs delta_x) && ltb_ℤ (pos 0) delta_x
    then PrimitiveAction.move_right_short
    else if leb (abs delta_y) (abs delta_x) && ltb_ℤ delta_x (pos 0)
    then PrimitiveAction.move_left_short
    else vertical delta_y

unfoldable pub point_step_evidence_ids : Observation → VisibleScreenPointTarget → List String
point_step_evidence_ids o t = extend_new o.evidence_ids t.evidence_ids

abbrev reach_missing : Observation → ℕ → SkillStep
reach_missing o step_index = record {
  skill_name = "basic_reach_target";
  action = PrimitiveAction.wait;
  step_index = step_index;
  reason = "missing_target_or_position";
  evidence_ids = o.evidence_ids;
}

abbrev reach_move : VisibleScreenPointTarget → ℤ × ℤ → Observation → ℕ → SkillStep
reach_move t p o step_index = record {
  skill_name = "basic_reach_target";
  action = movement_action_toward p (pos t.screen_position.0, pos t.screen_position.1);
  step_index = step_index;
  reason = "move_toward_visible_target";
  evidence_ids = point_step_evidence_ids o t;
}

unfoldable pub reach_can_start : Option VisibleScreenPointTarget → Observation → Bool
reach_can_start target o = not (is_none target) && not (is_none o.player_screen_position)

abbrev reach_from : Option VisibleScreenPointTarget → Option (ℤ × ℤ) → Observation → ℕ → SkillStep
reach_from none position o step_index = reach_missing o step_index
reach_from (some t) none o step_index = reach_missing o step_index
reach_from (some t) (some p) o step_index = reach_move t p o step_index

unfoldable pub reach_next_action : Option VisibleScreenPointTarget → Observation → ℕ → SkillStep
unfolding movement_action_toward point_step_evidence_ids
reach_next_action target o step_index = reach_from target o.player_screen_position o step_index

abbrev reach_contract : ℕ → RewardProfile → SkillContract
reach_contract max_steps profile = record {
  skill_name = "basic_reach_target";
  allowed_actions =
      PrimitiveAction.move_up_short ∷ PrimitiveAction.move_down_short
      ∷ PrimitiveAction.move_left_short ∷ PrimitiveAction.move_right_short ∷ PrimitiveAction.wait
      ∷ [];
  preconditions = SkillCondition.reach_target_visible ∷ SkillCondition.player_position_visible ∷ [];
  success_detector = SkillCondition.target_reached ∷ [];
  failure_detector =
      SkillCondition.death_screen ∷ SkillCondition.combat_started ∷ SkillCondition.timeout
      ∷ SkillCondition.no_progress ∷ [];
  max_steps = max_steps;
  reward_profile = profile;
}

-- `BasicReachTargetSkill`; its tolerance is checked at construction and not read again
unfoldable pub basic_reach_target_skill :
    Option VisibleScreenPointTarget → ℕ → RewardProfile → RunnableSkill
unfolding reach_can_start reach_next_action
basic_reach_target_skill target max_steps profile = record {
  contract = reach_contract max_steps profile;
  can_start = reach_can_start target;
  next_action = reach_next_action target;
}
