-- ===== src/Planner/Cortex/Built.antt =====
-- What a context that src/fh_agent/planner/context.py builds is made of.
use mathlib.Core.Option.{some-injective}
use autonomous_game_agent.Prelude.{
  String, true, false, Option, none, some, List, ◌≡◌, sym, ap, ◌∙◌, ◌>>=◌, >>=-eq-some, arith,
}
use autonomous_game_agent.Observation.{Observation}
use autonomous_game_agent.Planner.Json.{Json, object, Entries}
use autonomous_game_agent.Planner.Json.Inside.{Inside, in_object, at_entry}
use autonomous_game_agent.Planner.Scan.Complete.{is_control}
use autonomous_game_agent.Planner.Hidden.Complete.{names_hidden_state}
use autonomous_game_agent.Planner.Contract.{reject_unsafe_content}
use autonomous_game_agent.Planner.Contract.Safe.{answer_passes_iff}
use autonomous_game_agent.Planner.Output.{RiskLimit}
use autonomous_game_agent.Planner.Notes.{
  observed_fact, hypothesis, ReflectionNote, Raw, coerce_reflection_notes, coerce_risk_limit,
  questions_of,
}
use autonomous_game_agent.Planner.Context.{
  CortexContext, summarize_observation, context_data, all_factual, all_hypotheses,
  validated_context, context_of, build_plan_context,
}
use autonomous_game_agent.Manager.TargetRef.{SkillName}
use autonomous_game_agent.Manager.Replan.{Memory, lookup}

module _ (lower : String → String) (fields_of : Entries → Option ReflectionNote)
    (risk_fields_of : Entries → Option RiskLimit) where
  -- The parts of a context that is built for an observation, a memory summary and skills.
  pub record IsContextOf (o : Observation) (memory : Memory Raw) (skills : List SkillName)
      (c : CortexContext) : Type 0 where
    pub summary : c.observation_summary ≡ summarize_observation o
    pub outcomes :
        coerce_reflection_notes fields_of observed_fact (lookup "recent_skill_outcomes" memory)
        ≡ some c.recent_skill_outcomes
    pub allowed : c.allowed_skills ≡ skills
    pub clean :
        (v : Json)
        → Inside v (object c.observation_summary)
        → (is_control v ≡ false) × (names_hidden_state lower v ≡ false)
    pub factual : all_factual c.evidence_backed_facts ≡ true
    pub guessed : all_hypotheses c.hypotheses ≡ true

  parts :
      (o : Observation) (skills : List SkillName) (c : CortexContext)
      (facts guesses outcomes : Option (List ReflectionNote)) (risk : Option RiskLimit)
      (questions : Option (List String))
      → (facts >>= λ f. guesses >>= λ g. outcomes >>= λ s. risk >>= λ r. questions >>= λ q.
          some (record {
            observation_summary = summarize_observation o;
            evidence_backed_facts = f;
            hypotheses = g;
            recent_skill_outcomes = s;
            allowed_skills = skills;
            risk_constraints = r;
            open_questions = q;
          }))
        ≡ some c
      → (c.observation_summary ≡ summarize_observation o)
        × (outcomes ≡ some c.recent_skill_outcomes)
        × (c.allowed_skills ≡ skills)
  parts o skills c none guesses outcomes risk questions h = absurd (cc)
  parts o skills c (some f) none outcomes risk questions h = absurd (cc)
  parts o skills c (some f) (some g) none risk questions h = absurd (cc)
  parts o skills c (some f) (some g) (some s) none questions h = absurd (cc)
  parts o skills c (some f) (some g) (some s) (some r) none h = absurd (cc)
  parts o skills c (some f) (some g) (some s) (some r) (some q) h =
      let same = some-injective _ c h in
      (
        sym (ap (λ (x : CortexContext). x.observation_summary) same),
        ap (λ (x : CortexContext). some x.recent_skill_outcomes) same,
        sym (ap (λ (x : CortexContext). x.allowed_skills) same),
      )

  validated :
      (c d : CortexContext)
      → validated_context lower c ≡ some d
      → (c ≡ d)
        × (reject_unsafe_content lower (context_data d) ≡ none)
        × (all_factual d.evidence_backed_facts ≡ true)
        × (all_hypotheses d.hypotheses ≡ true)
  unfolding validated_context
  validated c d h = ground arith

  pub built-IsContextOf :
      (o : Observation) (memory : Memory Raw) (skills : List SkillName) (c : CortexContext)
      → build_plan_context lower fields_of risk_fields_of o memory skills ≡ some c
      → IsContextOf o memory skills c
  unfolding build_plan_context context_of context_data
  built-IsContextOf o memory skills c h =
      let (d, e, v) = >>=-eq-some (context_of lower fields_of risk_fields_of o memory skills) _ h in
      let (same, passed, factual, guessed) = validated d c v in
      let (summary, outcomes, allowed) =
        parts o skills c
          (coerce_reflection_notes fields_of observed_fact (lookup "known_facts" memory))
          (coerce_reflection_notes fields_of hypothesis (lookup "hypotheses" memory))
          (coerce_reflection_notes fields_of observed_fact (lookup "recent_skill_outcomes" memory))
          (coerce_risk_limit risk_fields_of (lookup "risk_constraints" memory))
          (questions_of (lookup "open_questions" memory)) (e ∙ ap some same) in
      record {
        summary = summary;
        outcomes = outcomes;
        allowed = allowed;
        clean =
            λ v m. (answer_passes_iff lower (context_data c)).1.0 passed v (in_object (at_entry m));
        factual = factual;
        guessed = guessed;
      }
