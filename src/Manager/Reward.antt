-- ===== src/Manager/Reward.antt =====
-- src/fh_agent/manager/reward_profiles.py and verified_reward.py. A weight is a finite float; it is
-- only multiplied by 1, -1 and 0 and summed once, so it is kept as a whole number of quarters, the
-- unit of every default weight.
pub mod Derived
mod Tests
use autonomous_game_agent.Prelude.{
  ℕ, String, Bool, true, false, not, Option, none, some, List, [], ◌∷◌, ◌==◌, ◌&&◌, ◌||◌,
  if◌then◌else◌, is_empty, str_eq,
}
use autonomous_game_agent.Prelude.Int.{ℤ, pos, negsuc, ◌+ℤ◌, ◌*ℤ◌}
use autonomous_game_agent.Verifier.Schemas.{VerifierStatus, FailureKind, VerifierResult}

pub data RewardTermName : Type 0 where
  new_visible_text screen_transition skill_success avoid_death avoid_combat : RewardTermName
  avoid_timeout avoid_repeated_no_progress information_gain hypothesis_tested : RewardTermName

unfoldable pub term_text : RewardTermName → String
term_text RewardTermName.new_visible_text = "new_visible_text"
term_text RewardTermName.screen_transition = "screen_transition"
term_text RewardTermName.skill_success = "skill_success"
term_text RewardTermName.avoid_death = "avoid_death"
term_text RewardTermName.avoid_combat = "avoid_combat"
term_text RewardTermName.avoid_timeout = "avoid_timeout"
term_text RewardTermName.avoid_repeated_no_progress = "avoid_repeated_no_progress"
term_text RewardTermName.information_gain = "information_gain"
term_text RewardTermName.hypothesis_tested = "hypothesis_tested"

term_code : RewardTermName → ℕ
term_code RewardTermName.new_visible_text = 0
term_code RewardTermName.screen_transition = 1
term_code RewardTermName.skill_success = 2
term_code RewardTermName.avoid_death = 3
term_code RewardTermName.avoid_combat = 4
term_code RewardTermName.avoid_timeout = 5
term_code RewardTermName.avoid_repeated_no_progress = 6
term_code RewardTermName.information_gain = 7
term_code RewardTermName.hypothesis_tested = 8

-- `==` on the names
unfoldable pub term_eq : RewardTermName → RewardTermName → Bool
unfolding term_code
term_eq a b = term_code a == term_code b

pub record RewardTerm : Type 0 where
  pub name : RewardTermName
  pub weight : ℤ

pub record RewardProfile : Type 0 where
  pub profile_name : String
  pub terms : List RewardTerm

unfoldable pub has_term : RewardTermName → List RewardTerm → Bool
unfolding term_eq
has_term n [] = false
has_term n (t ∷ terms) = term_eq t.name n || has_term n terms

-- `len(names) == len(set(names))`
unfoldable pub term_names_unique : List RewardTerm → Bool
unfolding has_term
term_names_unique [] = true
term_names_unique (t ∷ terms) = not (has_term t.name terms) && term_names_unique terms

-- true where the constructor returns, false where it raises
unfoldable pub profile_accepted : RewardProfile → Bool
unfolding term_names_unique
profile_accepted p = not (is_empty p.terms) && term_names_unique p.terms

abbrev term : RewardTermName → ℕ → RewardTerm
term n quarters = record { name = n; weight = pos quarters }

abbrev profile : String → List RewardTerm → RewardProfile
profile n ts = record { profile_name = n; terms = ts }

abbrev reach_terms : ℕ → List RewardTerm
reach_terms combat =
    term RewardTermName.screen_transition 4
    ∷ term RewardTermName.skill_success 4
    ∷ term RewardTermName.avoid_death 4
    ∷ term RewardTermName.avoid_combat combat
    ∷ term RewardTermName.avoid_timeout 2
    ∷ term RewardTermName.avoid_repeated_no_progress 1
    ∷ []

abbrev interact_terms : List RewardTerm
interact_terms =
    term RewardTermName.new_visible_text 4
    ∷ term RewardTermName.information_gain 3
    ∷ term RewardTermName.skill_success 4
    ∷ term RewardTermName.avoid_death 3
    ∷ term RewardTermName.avoid_timeout 2
    ∷ []

abbrev dialogue_terms : List RewardTerm
dialogue_terms =
    term RewardTermName.new_visible_text 4
    ∷ term RewardTermName.skill_success 4
    ∷ term RewardTermName.avoid_timeout 2
    ∷ term RewardTermName.avoid_repeated_no_progress 1
    ∷ []

abbrev basic_reach_terms : List RewardTerm
basic_reach_terms =
    term RewardTermName.screen_transition 4
    ∷ term RewardTermName.skill_success 4
    ∷ term RewardTermName.avoid_timeout 2
    ∷ term RewardTermName.avoid_repeated_no_progress 1
    ∷ []

abbrev retreat_terms : List RewardTerm
retreat_terms =
    term RewardTermName.skill_success 4
    ∷ term RewardTermName.avoid_death 4
    ∷ term RewardTermName.avoid_combat 3
    ∷ term RewardTermName.avoid_timeout 2
    ∷ []

abbrev wait_terms : List RewardTerm
wait_terms =
    term RewardTermName.skill_success 4
    ∷ term RewardTermName.avoid_death 4
    ∷ term RewardTermName.avoid_combat 2
    ∷ term RewardTermName.avoid_timeout 1
    ∷ term RewardTermName.avoid_repeated_no_progress 1
    ∷ []

abbrev menu_terms : List RewardTerm
menu_terms =
    term RewardTermName.new_visible_text 3
    ∷ term RewardTermName.skill_success 4
    ∷ term RewardTermName.avoid_timeout 2
    ∷ term RewardTermName.avoid_repeated_no_progress 1
    ∷ []

-- `DEFAULT_REWARD_PROFILES`
unfoldable pub default_reward_profiles : List (String × RewardProfile)
default_reward_profiles =
    ("continue_dialogue", profile "continue_dialogue_default" dialogue_terms)
    ∷ ("reach_visible_target", profile "reach_visible_target_default" (reach_terms 2))
    ∷ ("basic_reach_target", profile "basic_reach_target_default" basic_reach_terms)
    ∷ ("safe_reach_target", profile "safe_reach_target_default" (reach_terms 3))
    ∷ ("retreat_from_hazard", profile "retreat_from_hazard_default" retreat_terms)
    ∷ ("wait_for_safe_gap", profile "wait_for_safe_gap_default" wait_terms)
    ∷ ("interact_visible_object", profile "interact_visible_object_default" interact_terms)
    ∷ ("interact_visible", profile "interact_visible_default" interact_terms)
    ∷ ("select_visible_menu_entry", profile "select_visible_menu_entry_default" menu_terms)
    ∷ []

unfoldable pub find_profile : String → List (String × RewardProfile) → Option RewardProfile
find_profile k [] = none
find_profile k ((j, p) ∷ ps) = if str_eq j k then some p else find_profile k ps

-- `none` where it raises
unfoldable pub default_reward_profile_for_skill : String → Option RewardProfile
unfolding default_reward_profiles find_profile
default_reward_profile_for_skill skill_name = find_profile skill_name default_reward_profiles

-- `VerifiedRewardContribution` has the fields of a term.
pub record VerifiedRewardBreakdown : Type 0 where
  pub profile_name : String
  pub verifier_result : VerifierResult
  pub contributions : List RewardTerm
  pub total : ℤ

-- the term that a failure of the given kind justifies, and its multiplier
unfoldable pub failure_term : Option FailureKind → Option RewardTermName × ℤ
failure_term (some FailureKind.death) = (some RewardTermName.avoid_death, negsuc 0)
failure_term (some FailureKind.timeout) = (some RewardTermName.avoid_timeout, negsuc 0)
failure_term (some FailureKind.no_progress) =
    (some RewardTermName.avoid_repeated_no_progress, negsuc 0)
failure_term _ = (none, pos 0)

unfoldable pub supported_term : VerifierResult → Option RewardTermName × ℤ
unfolding failure_term
supported_term r = elim r.status [
  | VerifierStatus.success ↦ (some RewardTermName.skill_success, pos 1)
  | VerifierStatus.failure ↦ failure_term r.failure_kind
  | _ ↦ (none, pos 0)
]

-- `term.name == term_name`
abbrev named : RewardTermName → Option RewardTermName → Bool
named n none = false
named n (some m) = term_eq n m

unfoldable pub contributions_of : Option RewardTermName → ℤ → List RewardTerm → List RewardTerm
unfolding term_eq
contributions_of n k [] = []
contributions_of n k (t ∷ terms) =
    let rest = contributions_of n k terms in
    if named t.name n then record { name = t.name; weight = k *ℤ t.weight } ∷ rest else rest

-- Python's `sum`, from the left
unfoldable pub sum_values : ℤ → List RewardTerm → ℤ
sum_values acc [] = acc
sum_values acc (t ∷ ts) = sum_values (acc +ℤ t.weight) ts

unfoldable pub derive_verified_reward : RewardProfile → VerifierResult → VerifiedRewardBreakdown
unfolding supported_term contributions_of sum_values
derive_verified_reward profile r =
    let (term_name, multiplier) = supported_term r in
    let contributions = contributions_of term_name multiplier profile.terms in
    record {
      profile_name = profile.profile_name;
      verifier_result = r;
      contributions = contributions;
      total = sum_values (pos 0) contributions;
    }
