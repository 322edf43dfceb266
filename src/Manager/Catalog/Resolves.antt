-- ===== src/Manager/Catalog/Resolves.antt =====
-- The three tables on skills agree: what the Task Manager accepts, the two catalogs resolve.
use mathlib.Core.Path.{subst}
use autonomous_game_agent.Prelude.{Bool, Option, none, some, ◌≡◌, refl}
use autonomous_game_agent.Prelude.Int.{ℤ}
use autonomous_game_agent.Game.Call.{Call, returns}
use autonomous_game_agent.Manager.TargetRef.{
  SkillName, skill_text, GroundedTarget, TargetRequirement, GroundingResult,
  target_requirement_for_skill, target_type,
}
use autonomous_game_agent.Manager.SkillContract.{RunnableSkill}
use autonomous_game_agent.Manager.SkillRunner.Runtime.{Verifier}
use autonomous_game_agent.Manager.TaskManager.{target_is, validated_target}
use autonomous_game_agent.Manager.TaskManager.Target.{Fits, validated_target-Fits}
use autonomous_game_agent.Manager.Catalog.{
  get, default_skill_factories, verifier_for, factory_of, name_eq,
}
use autonomous_game_agent.Manager.Reward.{default_reward_profile_for_skill}

-- The skill of the name and a verifier are there.
pub record IsResolved (name : SkillName) (skill : Call RunnableSkill) (verifier : Call Verifier)
    : Type 0 where
  pub runnable : RunnableSkill
  pub found : skill ≡ returns runnable
  pub named : runnable.contract.skill_name ≡ skill_text name
  pub judge : Verifier
  pub judged : verifier ≡ returns judge

module _ {F : Type 0} (hypot : ℤ → ℤ → F) (lt_float : F → F → Bool) (tolerance : F) where
  -- what the requirement of a skill says of the target of a task
  abbrev Suits : Option TargetRequirement → Option GroundedTarget → Type 0
  Suits none t = ⊥
  Suits (some TargetRequirement.targetless) t = t ≡ none
  Suits (some (TargetRequirement.of_type type)) none = ⊥
  Suits (some (TargetRequirement.of_type type)) (some t) = target_type t ≡ type

  resolve :
      (skill : SkillName) (t : Option GroundedTarget)
      → Suits (target_requirement_for_skill skill) t
      → IsResolved skill
          (get skill t default_skill_factories)
          (verifier_for hypot lt_float tolerance skill t)
  unfolding target_requirement_for_skill get factory_of name_eq default_skill_factories verifier_for
      skill_text target_type default_reward_profile_for_skill
  resolve SkillName.continue_dialogue none h = record {
    runnable = _;
    found = refl;
    named = refl;
    judge = _;
    judged = refl;
  }
  resolve SkillName.continue_dialogue (some t) h = cc
  resolve SkillName.basic_reach_target none h = absurd h
  resolve SkillName.basic_reach_target (some (GroundedTarget.visible_screen_point t)) h = record {
    runnable = _;
    found = refl;
    named = refl;
    judge = _;
    judged = refl;
  }
  resolve SkillName.basic_reach_target (some (GroundedTarget.visible_object t)) h = cc
  resolve SkillName.interact_visible_object none h = absurd h
  resolve SkillName.interact_visible_object (some (GroundedTarget.visible_object t)) h = record {
    runnable = _;
    found = refl;
    named = refl;
    judge = _;
    judged = refl;
  }
  resolve SkillName.interact_visible_object (some (GroundedTarget.visible_screen_point t)) h = cc
  resolve SkillName.interact_visible t h = absurd h
  resolve SkillName.safe_reach_target t h = absurd h

  Suits-of_Fits :
      (skill : SkillName) (g : Option GroundingResult) (t : Option GroundedTarget)
      → Fits skill g (target_is t)
      → Suits (target_requirement_for_skill skill) t
  Suits-of_Fits skill g none (h, k) = rw h refl
  Suits-of_Fits skill g (some t) (r, h, s, k, w) = rw w refl

  -- Where the Task Manager accepts a target for a skill, the default skill catalog has the skill under
  -- its name, and the verifier catalog has a verifier for the skill and the target.
  pub accepted_targets_resolve :
      (skill : SkillName) (g : Option GroundingResult) (t : Option GroundedTarget)
      → validated_target skill g ≡ target_is t
      → IsResolved skill
          (get skill t default_skill_factories)
          (verifier_for hypot lt_float tolerance skill t)
  accepted_targets_resolve skill g t h =
      resolve skill t
        (Suits-of_Fits skill g t (subst (Fits skill g) h (validated_target-Fits skill g)))
