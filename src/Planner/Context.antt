-- ===== src/Planner/Context.antt =====
-- src/fh_agent/planner/context.py: the context of a planning call, which is built of what is visible and of a memory
-- summary. `lower` is Python's `str.lower`; where building raises, it gives none. The context of a reflection
-- call is left out.
use autonomous_game_agent.Prelude.{
  String, Bool, true, false, Option, none, some, List, [], ◌∷◌, ◌&&◌, is_none, if◌then◌else◌, ◌>>=◌,
}
use autonomous_game_agent.Prelude.Int.{ℤ}
use autonomous_game_agent.Observation.{Observation, UiState}
use autonomous_game_agent.Planner.Json.{
  Json, text, atom, array, object, Items, no_items, item, Entries, no_entries, entry, Atom,
}
use autonomous_game_agent.Planner.Contract.{reject_unsafe_content}
use autonomous_game_agent.Planner.Output.{RiskLimit, texts, optional_text}
use autonomous_game_agent.Planner.Notes.{
  observed_fact, validated_rule, hypothesis, ReflectionNote, Raw, coerce_reflection_notes,
  coerce_risk_limit, questions_of,
}
use autonomous_game_agent.Manager.TargetRef.{SkillName, skill_text}
use autonomous_game_agent.Manager.Replan.{Memory, lookup}

pub record CortexContext : Type 0 where
  pub observation_summary : Entries
  pub evidence_backed_facts : List ReflectionNote
  pub hypotheses : List ReflectionNote
  pub recent_skill_outcomes : List ReflectionNote
  pub allowed_skills : List SkillName
  pub risk_constraints : RiskLimit
  pub open_questions : List String

unfoldable ui_text : UiState → String
ui_text UiState.field = "field"
ui_text UiState.dialogue = "dialogue"
ui_text UiState.menu = "menu"
ui_text UiState.combat = "combat"
ui_text UiState.death = "death"
ui_text UiState.unknown = "unknown"

-- a pair of coordinates
abbrev point : ℤ × ℤ → Json
point p = array (item (atom Atom.number) (item (atom Atom.number) no_items))

abbrev optional_point : Option (ℤ × ℤ) → Json
optional_point none = atom Atom.null
optional_point (some p) = point p

unfoldable points : List (ℤ × ℤ) → Items
points [] = no_items
points (p ∷ ps) = item (point p) (points ps)

-- `_summarize_observation`
unfoldable pub summarize_observation : Observation → Entries
unfolding ui_text points texts
summarize_observation o = entry "run_id" (text o.run_id) (
    entry "ui_state" (text (ui_text o.ui_state)) (
      entry "screenshot_id" (optional_text o.screenshot_id) (
        entry "evidence_ids" (array (texts o.evidence_ids)) (
          entry "visible_message_text" (optional_text o.visible_message_text) (
            entry "visible_menu_items" (array (texts o.visible_menu_items)) (
              entry "player_screen_position" (optional_point o.player_screen_position) (
                entry "visible_sprite_screen_positions"
                  (array (points o.visible_sprite_screen_positions))
                  (entry "visible_sprite_visual_hashes"
                    (array (texts o.visible_sprite_visual_hashes)) no_entries))))))))

-- a list of objects of a model, which the validator that runs first does not look into
unfoldable models : List ReflectionNote → Items
models [] = no_items
models (n ∷ notes) = item (atom Atom.model) (models notes)

unfoldable skill_items : List SkillName → Items
skill_items [] = no_items
skill_items (s ∷ skills) = item (text (skill_text s)) (skill_items skills)

-- the keyword arguments of the constructor, as its first validator sees them
unfoldable pub context_data : CortexContext → Json
unfolding models skill_items texts
context_data c = object (
    entry "observation_summary" (object c.observation_summary) (
      entry "evidence_backed_facts" (array (models c.evidence_backed_facts)) (
        entry "hypotheses" (array (models c.hypotheses)) (
          entry "recent_skill_outcomes" (array (models c.recent_skill_outcomes)) (
            entry "allowed_skills" (array (skill_items c.allowed_skills)) (
              entry "risk_constraints" (atom Atom.model)
                (entry "open_questions" (array (texts c.open_questions)) no_entries)))))))

-- the first loop of `validate_note_statuses`: true where it does not raise
unfoldable pub all_factual : List ReflectionNote → Bool
all_factual [] = true
all_factual (n ∷ notes) =
    elim n.status [ observed_fact ↦ true | validated_rule ↦ true | hypothesis ↦ false ]
    && all_factual notes

-- the second loop
unfoldable pub all_hypotheses : List ReflectionNote → Bool
all_hypotheses [] = true
all_hypotheses (n ∷ notes) =
    elim n.status [ observed_fact ↦ false | validated_rule ↦ false | hypothesis ↦ true ]
    && all_hypotheses notes

-- the constructor `CortexContext(...)`: its two validators
unfoldable pub validated_context : (String → String) → CortexContext → Option CortexContext
unfolding context_data all_factual all_hypotheses
validated_context lower c =
    if is_none (reject_unsafe_content lower (context_data c))
      && all_factual c.evidence_backed_facts
      && all_hypotheses c.hypotheses
    then some c
    else none

module _ (lower : String → String) (fields_of : Entries → Option ReflectionNote)
    (risk_fields_of : Entries → Option RiskLimit) where
  -- the arguments of the constructor, or none where making one of them raises
  unfoldable pub context_of : Observation → Memory Raw → List SkillName → Option CortexContext
  unfolding summarize_observation coerce_reflection_notes coerce_risk_limit questions_of
  context_of o memory skills = do
    facts ← coerce_reflection_notes fields_of observed_fact (lookup "known_facts" memory)
    guesses ← coerce_reflection_notes fields_of hypothesis (lookup "hypotheses" memory)
    outcomes ←
        coerce_reflection_notes fields_of observed_fact (lookup "recent_skill_outcomes" memory)
    risk ← coerce_risk_limit risk_fields_of (lookup "risk_constraints" memory)
    questions ← questions_of (lookup "open_questions" memory)
    some (record {
      observation_summary = summarize_observation o;
      evidence_backed_facts = facts;
      hypotheses = guesses;
      recent_skill_outcomes = outcomes;
      allowed_skills = skills;
      risk_constraints = risk;
      open_questions = questions;
    })

  unfoldable pub build_plan_context :
      Observation → Memory Raw → List SkillName → Option CortexContext
  unfolding context_of validated_context
  build_plan_context o memory skills = do c ← context_of o memory skills; validated_context lower c
