-- ===== src/Planner/Cortex/Tests.antt =====
-- Planning calls on small screens, with a model client that always gives the same answer.
use autonomous_game_agent.Prelude.{Option, none, some, List, [], ◌∷◌, ◌++◌, ◌≡◌, refl}
use autonomous_game_agent.Prelude.Ids.{contains}
use autonomous_game_agent.Verifier.Schemas.{VerifierResult}
use autonomous_game_agent.Planner.Text.{decimal}
use autonomous_game_agent.Planner.Json.{Json, Entries}
use autonomous_game_agent.Planner.Scan.{find_direct_control_violations}
use autonomous_game_agent.Planner.Hidden.{find_hidden_state_term_violations}
use autonomous_game_agent.Planner.Contract.{reject_direct_control_plans, reject_unsafe_content}
use autonomous_game_agent.Planner.Output.{PlannerOutput, RiskLimit, model_dump}
use autonomous_game_agent.Planner.Notes.{
  observed_fact, hypothesis, ReflectionNote, Raw, note_object, default_risk,
}
use autonomous_game_agent.Planner.Context.{CortexContext, summarize_observation, build_plan_context}
use autonomous_game_agent.Planner.Cortex.{plan_next_goal, call_skills}
use autonomous_game_agent.Planner.Cortex.Scope.{IsInScope, plan-IsInScope}
use autonomous_game_agent.Planner.Cortex.Replanned.{replanned_context-cites}
use autonomous_game_agent.Manager.TargetRef.{skill_text}
use autonomous_game_agent.Manager.Capabilities.{default_runtime_capabilities}
use autonomous_game_agent.Manager.Replan.{
  Memory, sequence, foreign, outcome, build_replan_memory_summary, lookup,
}
use autonomous_game_agent.Samples.{talking, reading_plan, unchanged, read_event}

abbrev no_note : Entries → Option ReflectionNote
no_note kvs = none

abbrev no_risk : Entries → Option RiskLimit
no_risk kvs = none

abbrev reads_plan : Json → Option PlannerOutput
reads_plan raw = some reading_plan

abbrev answers : CortexContext → Option Json
answers c = some (model_dump reading_plan)

abbrev guess : ReflectionNote
guess = record { status = hypothesis; note = "set by map_id"; evidence_ids = [] }

abbrev guessing : Memory Raw
guessing = ("hypotheses", sequence (foreign (note_object guess) ∷ [])) ∷ []

abbrev guessing_context : CortexContext
guessing_context = record {
  observation_summary = summarize_observation talking;
  evidence_backed_facts = [];
  hypotheses = guess ∷ [];
  recent_skill_outcomes = [];
  allowed_skills = default_runtime_capabilities.available_skills;
  risk_constraints = default_risk;
  open_questions = [];
}

-- The note names hidden state, and the context is built.
note_with_hidden_state :
    build_plan_context unchanged no_note no_risk talking guessing
      default_runtime_capabilities.available_skills
    ≡ some guessing_context
unfolding build_plan_context find_direct_control_violations find_hidden_state_term_violations
    decimal contains reject_unsafe_content lookup skill_text
note_with_hidden_state = refl

planned :
    plan_next_goal unchanged no_note no_risk reads_plan answers talking guessing none
    ≡ some reading_plan
unfolding plan_next_goal find_direct_control_violations find_hidden_state_term_violations decimal
    contains reject_unsafe_content lookup skill_text reject_direct_control_plans model_dump
planned = refl

plan-IsInScope_example :
    IsInScope unchanged no_note no_risk reads_plan answers talking guessing
      (call_skills none)
      reading_plan
plan-IsInScope_example =
    plan-IsInScope unchanged no_note no_risk reads_plan answers talking guessing none reading_plan
      planned

-- the summary after a dialogue was read, and the context of the next attempt
abbrev after_reading : Memory Raw
after_reading =
    (
      "recent_skill_outcomes",
      sequence (
          outcome (record {
            status = "observed_fact";
            note = "Skill continue_dialogue completed with verifier status success.";
            evidence_ids = "shot-1" ∷ [];
          })
          ∷ []),
    )
    ∷ []

abbrev read_note : ReflectionNote
read_note = record {
  status = observed_fact;
  note = "Skill continue_dialogue completed with verifier status success.";
  evidence_ids = "shot-1" ∷ [];
}

abbrev no_memory : Memory Raw
no_memory = []

abbrev reading_context : CortexContext
reading_context = record guessing_context {
  hypotheses = [];
  recent_skill_outcomes = read_note ∷ [];
}

summed_up : build_replan_memory_summary no_memory read_event ≡ some after_reading
unfolding build_replan_memory_summary skill_text
summed_up = refl

reading_context_built :
    build_plan_context unchanged no_note no_risk talking after_reading
      default_runtime_capabilities.available_skills
    ≡ some reading_context
unfolding build_plan_context find_direct_control_violations find_hidden_state_term_violations
    decimal contains reject_unsafe_content lookup skill_text
reading_context_built = refl

replanned_context-cites_example :
    (v : VerifierResult) × (read_event.verifier_result ≡ some v)
    × ((earlier : List ReflectionNote) × ((note : ReflectionNote)
          × (reading_context.recent_skill_outcomes ≡ earlier ++ note ∷ [])
          × (note.status ≡ observed_fact)
          × (note.evidence_ids ≡ v.evidence_ids)))
replanned_context-cites_example =
    replanned_context-cites unchanged no_note no_risk no_memory after_reading read_event talking
      default_runtime_capabilities.available_skills reading_context summed_up reading_context_built
