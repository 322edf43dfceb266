-- ===== src/Manager/Catalog.antt =====
-- src/fh_agent/manager/skill_catalog.py and verifier_catalog.py: the skill and the verifier of a task. A
-- dictionary is a list of its entries. A task is a target or nothing, as the callers of the catalog have it.
pub mod Resolves
pub mod Contracts
pub mod Verdicts
mod Tests
use autonomous_game_agent.Prelude.{
  ℕ, String, Bool, true, false, not, Option, none, some, List, [], ◌∷◌, ◌==◌, if◌then◌else◌,
  is_none,
}
use autonomous_game_agent.Prelude.Int.{ℤ}
use autonomous_game_agent.Game.Call.{Call, returns, raises}
use autonomous_game_agent.Observation.{Observation}
use autonomous_game_agent.Manager.Reward.{RewardProfile, default_reward_profile_for_skill}
use autonomous_game_agent.Manager.TargetRef.{
  SkillName, skill_text, GroundedTarget, VisibleObjectTarget, VisibleScreenPointTarget,
}
use autonomous_game_agent.Manager.Task.{TaskSpec}
use autonomous_game_agent.Manager.SkillContract.{RunnableSkill, is_dialogue_observation}
use autonomous_game_agent.Manager.SkillRunner.Runtime.{Verifier}
use autonomous_game_agent.Body.Skills.{
  continue_dialogue_skill, interact_visible_object_skill, basic_reach_target_skill,
}
use autonomous_game_agent.Verifier.Dialogue
use autonomous_game_agent.Verifier.Interaction
use autonomous_game_agent.Verifier.ReachTarget

name_code : SkillName → ℕ
name_code SkillName.continue_dialogue = 0
name_code SkillName.basic_reach_target = 1
name_code SkillName.interact_visible = 2
name_code SkillName.interact_visible_object = 3
name_code SkillName.safe_reach_target = 4

-- `==` on the names
unfoldable pub name_eq : SkillName → SkillName → Bool
unfolding name_code
name_eq a b = name_code a == name_code b

abbrev pub SkillFactory : Type 0
SkillFactory = Option GroundedTarget → Call RunnableSkill

-- `task if isinstance(task, VisibleObjectTarget) else None`
abbrev pub object_of : Option GroundedTarget → Option VisibleObjectTarget
object_of none = none
object_of (some (GroundedTarget.visible_screen_point t)) = none
object_of (some (GroundedTarget.visible_object t)) = some t

-- `task if isinstance(task, VisibleScreenPointTarget) else None`
abbrev pub point_of : Option GroundedTarget → Option VisibleScreenPointTarget
point_of none = none
point_of (some (GroundedTarget.visible_screen_point t)) = some t
point_of (some (GroundedTarget.visible_object t)) = none

-- a skill on the default reward profile of its name
abbrev pub with_profile : String → (RewardProfile → RunnableSkill) → Call RunnableSkill
unfolding default_reward_profile_for_skill
with_profile name f = elim (default_reward_profile_for_skill name) [
  | none ↦ raises
  | some p ↦ returns (f p)
]

abbrev pub SkillCatalog : Type 0
SkillCatalog = List (SkillName × SkillFactory)

-- `DEFAULT_SKILL_FACTORIES`
unfoldable pub default_skill_factories : SkillCatalog
unfolding with_profile continue_dialogue_skill interact_visible_object_skill
    basic_reach_target_skill
default_skill_factories =
    (
      SkillName.continue_dialogue,
      λ task. with_profile "continue_dialogue" (λ p. continue_dialogue_skill 3 p),
    )
    ∷ (
      SkillName.interact_visible_object,
      λ task.
          with_profile "interact_visible_object"
            (λ p. interact_visible_object_skill (object_of task) 2 p),
    )
    ∷ (
      SkillName.basic_reach_target,
      λ task. with_profile "basic_reach_target" (λ p. basic_reach_target_skill (point_of task) 8 p),
    )
    ∷ []

-- `self._factories[skill_name] = factory`
unfoldable pub register : SkillName → SkillFactory → SkillCatalog → SkillCatalog
unfolding name_eq
register name factory [] = (name, factory) ∷ []
register name factory ((n, f) ∷ rest) =
    let others = register name factory rest in
    if name_eq n name then (name, factory) ∷ rest else (n, f) ∷ others

unfoldable pub factory_of : SkillName → SkillCatalog → Option SkillFactory
unfolding name_eq
factory_of name [] = none
factory_of name ((n, f) ∷ rest) = if name_eq n name then some f else factory_of name rest

unfoldable pub get : SkillName → Option GroundedTarget → SkillCatalog → Call RunnableSkill
unfolding factory_of
get name task catalog = elim (factory_of name catalog) [ none ↦ raises | some f ↦ f task ]

-- the end of `select`, by the type of the task
unfoldable pub select_by_target : Option GroundedTarget → SkillCatalog → Call RunnableSkill
unfolding get
select_by_target none catalog = raises
select_by_target (some (GroundedTarget.visible_object t)) catalog =
    get SkillName.interact_visible_object (some (GroundedTarget.visible_object t)) catalog
select_by_target (some (GroundedTarget.visible_screen_point t)) catalog =
    get SkillName.basic_reach_target (some (GroundedTarget.visible_screen_point t)) catalog

unfoldable pub select :
    Observation → Option GroundedTarget → Option SkillName → SkillCatalog → Call RunnableSkill
unfolding get select_by_target
select o task (some name) catalog = get name task catalog
select o task none catalog =
    if is_dialogue_observation o
    then get SkillName.continue_dialogue none catalog
    else select_by_target task catalog

module _ {F : Type 0} (hypot : ℤ → ℤ → F) (lt_float : F → F → Bool) where
  -- `VerifierCatalog.for_task`, with the catalog's tolerance
  unfoldable pub verifier_for : F → SkillName → Option GroundedTarget → Call Verifier
  unfolding Dialogue.verify Interaction.verify ReachTarget.verify
  verifier_for tolerance SkillName.continue_dialogue none = returns Dialogue.verify
  verifier_for tolerance SkillName.continue_dialogue (some t) = raises
  verifier_for tolerance SkillName.basic_reach_target none = raises
  verifier_for tolerance SkillName.basic_reach_target (some (GroundedTarget.visible_object t)) =
      raises
  verifier_for tolerance SkillName.basic_reach_target
        (some (GroundedTarget.visible_screen_point t)) =
      returns (ReachTarget.verify hypot lt_float t tolerance)
  verifier_for tolerance SkillName.interact_visible_object none = raises
  verifier_for tolerance SkillName.interact_visible_object
        (some (GroundedTarget.visible_screen_point t)) =
      raises
  verifier_for tolerance SkillName.interact_visible_object
        (some (GroundedTarget.visible_object t)) =
      returns (Interaction.verify (some t))
  verifier_for tolerance SkillName.interact_visible target = raises
  verifier_for tolerance SkillName.safe_reach_target target = raises
