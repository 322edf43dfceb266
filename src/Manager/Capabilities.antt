-- ===== src/Manager/Capabilities.antt =====
-- src/fh_agent/skill_capabilities.py: the skills that are available to a planning call.
use mathlib.Core.Bool.{◌||◌}
use autonomous_game_agent.Prelude.{Bool, true, false, not, List, [], ◌∷◌, ◌&&◌, str_eq}
use autonomous_game_agent.Manager.TargetRef.{SkillName, skill_text}

pub record SkillCapabilityContract : Type 0 where
  pub available_skills : List SkillName

-- `skill in available_skills`
unfoldable pub is_available : SkillName → List SkillName → Bool
unfolding skill_text
is_available skill [] = false
is_available skill (s ∷ skills) =
    str_eq (skill_text skill) (skill_text s) || is_available skill skills

-- `available_skills_must_be_unique`: true where it returns
unfoldable pub skills_unique : List SkillName → Bool
unfolding is_available
skills_unique [] = true
skills_unique (s ∷ skills) = not (is_available s skills) && skills_unique skills

-- `DEFAULT_RUNTIME_CAPABILITIES`
abbrev pub default_runtime_capabilities : SkillCapabilityContract
default_runtime_capabilities = record {
  available_skills =
      SkillName.basic_reach_target ∷ SkillName.continue_dialogue ∷ SkillName.interact_visible_object
      ∷ [];
}
