-- ===== src/Body/Skills/Proposals.antt =====
-- The skills of src/fh_agent/body/skills propose only actions that their contracts allow.
use autonomous_game_agent.Prelude.{ℕ, true, Option, ◌≡◌, arith}
use autonomous_game_agent.Body.Actions.{action_in}
use autonomous_game_agent.Body.Skills.{
  continue_dialogue_skill, interact_visible_object_skill, basic_reach_target_skill,
}
use autonomous_game_agent.Observation.{Observation}
use autonomous_game_agent.Manager.Reward.{RewardProfile}
use autonomous_game_agent.Manager.TargetRef.{VisibleScreenPointTarget, VisibleObjectTarget}
use autonomous_game_agent.Manager.SkillContract.{RunnableSkill}

-- Every step that the skill proposes uses an allowed action, and the step carries the index asked for
-- and the name of the skill.
pub record KeepsContract (skill : RunnableSkill) : Type 0 where
  pub allowed :
      (o : Observation) (i : ℕ)
      → action_in (skill.next_action o i).action skill.contract.allowed_actions ≡ true
  pub indexed : (o : Observation) (i : ℕ) → (skill.next_action o i).step_index ≡ i
  pub signed :
      (o : Observation) (i : ℕ) → (skill.next_action o i).skill_name ≡ skill.contract.skill_name

module _ (max_steps : ℕ) (profile : RewardProfile) where
  pub continue_dialogue-KeepsContract : KeepsContract (continue_dialogue_skill max_steps profile)
  unfolding continue_dialogue_skill action_in
  continue_dialogue-KeepsContract = record {
    allowed = λ o i. ground arith;
    indexed = λ o i. ground arith;
    signed = λ o i. ground arith;
  }

  pub interact-KeepsContract :
      (target : Option VisibleObjectTarget)
      → KeepsContract (interact_visible_object_skill target max_steps profile)
  unfolding interact_visible_object_skill action_in
  interact-KeepsContract target = record {
    allowed = λ o i. ground arith;
    indexed = λ o i. ground arith;
    signed = λ o i. ground arith;
  }

  pub reach-KeepsContract :
      (target : Option VisibleScreenPointTarget)
      → KeepsContract (basic_reach_target_skill target max_steps profile)
  unfolding basic_reach_target_skill action_in
  reach-KeepsContract target = record {
    allowed = λ o i. ground arith;
    indexed = λ o i. ground arith;
    signed = λ o i. ground arith;
  }
