-- ===== src/Manager/Catalog/Tests.antt =====
-- The theorems on the catalogs, at a point to reach.
use autonomous_game_agent.Prelude.{ℕ, ◌+◌, some, [], ◌∷◌, refl, ltb}
use autonomous_game_agent.Prelude.Int.{ℤ, abs}
use autonomous_game_agent.Manager.TargetRef.{
  SkillName, GroundedTarget, target_requirement_for_skill,
}
use autonomous_game_agent.Manager.TaskManager.{validated_target}
use autonomous_game_agent.Manager.Catalog.{get, default_skill_factories, verifier_for}
use autonomous_game_agent.Manager.Catalog.Resolves.{IsResolved, accepted_targets_resolve}
use autonomous_game_agent.Manager.Catalog.Verdicts.{JudgesBacked, chosen_verifier-JudgesBacked}
use autonomous_game_agent.Manager.Catalog.Contracts.{Kept, catalog_skill_keeps_contract}
use autonomous_game_agent.Manager.Grounding.{grounded_on}
use autonomous_game_agent.Samples.{point_target}

abbrev taxicab : ℤ → ℤ → ℕ
taxicab x y = abs x + abs y

abbrev point : GroundedTarget
point = GroundedTarget.visible_screen_point point_target

accepted_targets_resolve_example :
    IsResolved SkillName.basic_reach_target
      (get SkillName.basic_reach_target (some point) default_skill_factories)
      (verifier_for taxicab ltb 4 SkillName.basic_reach_target (some point))
unfolding validated_target target_requirement_for_skill
accepted_targets_resolve_example =
    accepted_targets_resolve taxicab ltb 4 SkillName.basic_reach_target
      (some (grounded_on point ("shot-2" ∷ []))) (some point) refl

catalog_skill_keeps_contract_example :
    Kept (get SkillName.basic_reach_target (some point) default_skill_factories)
catalog_skill_keeps_contract_example =
    catalog_skill_keeps_contract SkillName.basic_reach_target (some point)

chosen_verifier-JudgesBacked_example :
    JudgesBacked (some point) (verifier_for taxicab ltb 4 SkillName.basic_reach_target (some point))
chosen_verifier-JudgesBacked_example =
    chosen_verifier-JudgesBacked taxicab ltb 4 SkillName.basic_reach_target (some point)
