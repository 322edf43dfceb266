-- ===== src/Manager/Catalog/Contracts.antt =====
-- The skills that the default catalog hands out.
use autonomous_game_agent.Prelude.{String, Option, none, some}
use autonomous_game_agent.Game.Call.{Call, returns, raises}
use autonomous_game_agent.Body.Skills.Proposals.{
  KeepsContract, continue_dialogue-KeepsContract, interact-KeepsContract, reach-KeepsContract,
}
use autonomous_game_agent.Manager.Reward.{RewardProfile, default_reward_profile_for_skill}
use autonomous_game_agent.Manager.TargetRef.{SkillName, GroundedTarget}
use autonomous_game_agent.Manager.SkillContract.{RunnableSkill}
use autonomous_game_agent.Manager.Catalog.{
  get, factory_of, name_eq, default_skill_factories, with_profile, object_of, point_of,
}

abbrev pub Kept : Call RunnableSkill → Type 0
Kept raises = Unit
Kept (returns skill) = KeepsContract skill

with_profile-Kept :
    (name : String) (f : RewardProfile → RunnableSkill)
    → ((p : RewardProfile) → KeepsContract (f p))
    → Kept (with_profile name f)
unfolding with_profile
with_profile-Kept name f h = at (default_reward_profile_for_skill name)
  where
    at :
        (o : Option RewardProfile)
        → Kept (elim o as (λ _. Call RunnableSkill) [ none ↦ raises | some p ↦ returns (f p) ])
    at none = tt
    at (some p) = h p

-- A skill that the default catalog returns, for any target, proposes only actions that its contract
-- allows, in steps that carry the index asked for and the skill's name.
pub catalog_skill_keeps_contract :
    (name : SkillName) (task : Option GroundedTarget) → Kept (get name task default_skill_factories)
unfolding get factory_of name_eq default_skill_factories
catalog_skill_keeps_contract SkillName.continue_dialogue task =
    with_profile-Kept "continue_dialogue" _ (λ p. continue_dialogue-KeepsContract 3 p)
catalog_skill_keeps_contract SkillName.interact_visible_object task =
    with_profile-Kept "interact_visible_object" _ (λ p. interact-KeepsContract 2 p (object_of task))
catalog_skill_keeps_contract SkillName.basic_reach_target task =
    with_profile-Kept "basic_reach_target" _ (λ p. reach-KeepsContract 8 p (point_of task))
catalog_skill_keeps_contract SkillName.interact_visible task = tt
catalog_skill_keeps_contract SkillName.safe_reach_target task = tt
