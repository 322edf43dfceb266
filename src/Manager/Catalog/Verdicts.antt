-- ===== src/Manager/Catalog/Verdicts.antt =====
-- What every verifier that the catalog of src/fh_agent/manager/verifier_catalog.py chooses has in common.
use autonomous_game_agent.Prelude.{String, Bool, Option, none, some, List, [], ◌∷◌}
use autonomous_game_agent.Prelude.Int.{ℤ}
use autonomous_game_agent.Game.Call.{Call, returns, raises}
use autonomous_game_agent.Observation.{Observation}
use autonomous_game_agent.Manager.TargetRef.{SkillName, GroundedTarget}
use autonomous_game_agent.Manager.SkillRunner.Runtime.{Verifier}
use autonomous_game_agent.Manager.Catalog.{verifier_for}
use autonomous_game_agent.Verifier.Interaction.{evidence_sources}
use autonomous_game_agent.Verifier.Backed.{
  dialogue-IsBacked, interaction-IsBacked, reach_target-IsBacked,
}
use autonomous_game_agent.Verifier.Contract.{IsBacked}

-- What a verdict may cite: the two observations, with the target if there is one; for a point on the screen the
-- later observation only.
abbrev pub verdict_sources : Option GroundedTarget → Observation → Observation → List (List String)
verdict_sources none before after = before.evidence_ids ∷ after.evidence_ids ∷ []
verdict_sources (some (GroundedTarget.visible_object t)) before after =
    t.evidence_ids ∷ before.evidence_ids ∷ after.evidence_ids ∷ []
verdict_sources (some (GroundedTarget.visible_screen_point t)) before after =
    t.evidence_ids ∷ after.evidence_ids ∷ []

-- All verdicts of a verifier that is returned are backed.
abbrev pub JudgesBacked : Option GroundedTarget → Call Verifier → Type 0
JudgesBacked target raises = Unit
JudgesBacked target (returns verify) =
    (before after : Observation)
    → IsBacked (verdict_sources target before after) after (verify before after)

-- Each verifier that the catalog chooses for a skill and a target gives, on any two observations, a verdict that
-- its model accepts: its evidence is distinct and of the target and the observations, there is some on a terminal
-- verdict and then all that the later observation has, and a failure is that of a visible death.
pub chosen_verifier-JudgesBacked :
    {F : Type 0} (hypot : ℤ → ℤ → F) (lt_float : F → F → Bool) (tolerance : F) (skill : SkillName)
    (target : Option GroundedTarget)
    → JudgesBacked target (verifier_for hypot lt_float tolerance skill target)
unfolding verifier_for evidence_sources
chosen_verifier-JudgesBacked hypot lt_float tolerance SkillName.continue_dialogue none =
    dialogue-IsBacked
chosen_verifier-JudgesBacked hypot lt_float tolerance SkillName.continue_dialogue (some t) = tt
chosen_verifier-JudgesBacked hypot lt_float tolerance SkillName.basic_reach_target none = tt
chosen_verifier-JudgesBacked hypot lt_float tolerance SkillName.basic_reach_target
      (some (GroundedTarget.visible_object t)) =
    tt
chosen_verifier-JudgesBacked hypot lt_float tolerance SkillName.basic_reach_target
      (some (GroundedTarget.visible_screen_point t)) =
    reach_target-IsBacked hypot lt_float t tolerance
chosen_verifier-JudgesBacked hypot lt_float tolerance SkillName.interact_visible_object none = tt
chosen_verifier-JudgesBacked hypot lt_float tolerance SkillName.interact_visible_object
      (some (GroundedTarget.visible_screen_point t)) =
    tt
chosen_verifier-JudgesBacked hypot lt_float tolerance SkillName.interact_visible_object
      (some (GroundedTarget.visible_object t)) =
    interaction-IsBacked (some t)
chosen_verifier-JudgesBacked hypot lt_float tolerance SkillName.interact_visible target = tt
chosen_verifier-JudgesBacked hypot lt_float tolerance SkillName.safe_reach_target target = tt
