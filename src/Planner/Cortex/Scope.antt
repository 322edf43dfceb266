-- ===== src/Planner/Cortex/Scope.antt =====
-- What a plan that `Cortex.plan_next_goal` of src/fh_agent/planner/cortex.py returns rests on.
use mathlib.Core.Option.{some-injective}
use mathlib.Core.Path.{subst}
use autonomous_game_agent.Prelude.{
  String, true, false, Option, none, some, List, [], ◌∷◌, ◌≡◌, refl, sym, arith, str_eq, eq_iff,
  >>=-eq-some, require-eq-some,
}
use autonomous_game_agent.Prelude.Ids.{in_any}
use autonomous_game_agent.Observation.{Observation}
use autonomous_game_agent.Planner.Json.{Json, object, Entries}
use autonomous_game_agent.Planner.Json.Inside.{Inside}
use autonomous_game_agent.Planner.Scan.Complete.{is_control}
use autonomous_game_agent.Planner.Hidden.Complete.{names_hidden_state}
use autonomous_game_agent.Planner.Contract.{reject_direct_control_plans}
use autonomous_game_agent.Planner.Output.{PlannerOutput, RiskLimit, output_accepted, model_validate}
use autonomous_game_agent.Planner.Notes.{ReflectionNote, Raw}
use autonomous_game_agent.Planner.Context.{CortexContext, summarize_observation, build_plan_context}
use autonomous_game_agent.Planner.Cortex.{
  evidence_in_scope, all_available, call_skills, ask, plan_next_goal,
}
use autonomous_game_agent.Planner.Cortex.Evidence.{plan_sources, context_sources, in_scope}
use autonomous_game_agent.Planner.Cortex.Built.{built-IsContextOf}
use autonomous_game_agent.Manager.TargetRef.{SkillName, skill_text}
use autonomous_game_agent.Manager.Capabilities.{
  is_available, skills_unique, default_runtime_capabilities,
}
use autonomous_game_agent.Manager.Replan.{Memory}

-- skills of one name are available together
same_available :
    (s t : SkillName) (runtime : List SkillName)
    → skill_text s ≡ skill_text t
    → is_available s runtime ≡ is_available t runtime
unfolding is_available
same_available s t [] e = refl
same_available s t (r ∷ runtime) e = cc (e, same_available s t runtime e)

-- a skill of a list of available skills is available
in_runtime :
    (s : SkillName) (skills runtime : List SkillName)
    → all_available skills runtime ≡ true
    → is_available s skills ≡ true
    → is_available s runtime ≡ true
unfolding all_available is_available
in_runtime s [] runtime h k = absurd (cc)
in_runtime s (t ∷ skills) runtime h k = ground (
  arith,
  eq_iff (skill_text s) (skill_text t),
  same_available s t runtime,
  in_runtime s skills runtime,
)

module _ (lower : String → String) (note_fields_of : Entries → Option ReflectionNote)
    (risk_fields_of : Entries → Option RiskLimit) (fields_of : Json → Option PlannerOutput)
    (complete : CortexContext → Option Json) where
  -- The plan `p` is of the context of the call, and of an answer that was accepted.
  pub record IsInScope (o : Observation) (memory : Memory Raw) (skills : List SkillName)
      (p : PlannerOutput) : Type 0 where
    pub context : CortexContext
    pub built :
        build_plan_context lower note_fields_of risk_fields_of o memory skills ≡ some context
    pub clean :
        (v : Json)
        → Inside v (object (summarize_observation o))
        → (is_control v ≡ false) × (names_hidden_state lower v ≡ false)
    pub raw : Json
    pub answered : complete context ≡ some raw
    pub no_controls : reject_direct_control_plans raw ≡ none
    pub read : fields_of raw ≡ some p
    pub accepted : output_accepted p ≡ true
    pub selected : is_available p.selected_skill skills ≡ true
    pub in_runtime :
        is_available p.selected_skill default_runtime_capabilities.available_skills ≡ true
    pub cites :
        (a : String)
        → str_eq a "" ≡ false
        → in_any (plan_sources p) a ≡ true
        → in_any (context_sources o context) a ≡ true

  read :
      (raw : Json) (p : PlannerOutput)
      → model_validate fields_of raw ≡ some p
      → (reject_direct_control_plans raw ≡ none)
        × (fields_of raw ≡ some p)
        × (output_accepted p ≡ true)
  unfolding model_validate
  read raw p h = ground arith

  -- a plan that the model's answer to a context gives
  asked :
      (c : CortexContext) (p : PlannerOutput)
      → ask lower note_fields_of risk_fields_of fields_of complete c ≡ some p
      → (raw : Json) × (complete c ≡ some raw)
        × (model_validate fields_of raw ≡ some p)
        × (evidence_in_scope p c ≡ true)
        × (is_available p.selected_skill c.allowed_skills ≡ true)
  unfolding ask
  asked c p h =
      let (raw, answered, h) = >>=-eq-some (complete c) _ h in
      let (q, validated, h) = >>=-eq-some (model_validate fields_of raw) _ h in
      let (scoped, h) = require-eq-some (evidence_in_scope q c) _ h in
      let (selected, h) = require-eq-some (is_available q.selected_skill c.allowed_skills) _ h in
      subst
        (λ x.
          (raw : Json) × (complete c ≡ some raw)
          × (model_validate fields_of raw ≡ some x)
          × (evidence_in_scope x c ≡ true)
          × (is_available x.selected_skill c.allowed_skills ≡ true))
        (some-injective q p h) (raw, answered, validated, scoped, selected)

  from_context :
      (o : Observation) (memory : Memory Raw) (skills : List SkillName) (c : CortexContext)
      (p : PlannerOutput)
      → all_available skills default_runtime_capabilities.available_skills ≡ true
      → build_plan_context lower note_fields_of risk_fields_of o memory skills ≡ some c
      → ask lower note_fields_of risk_fields_of fields_of complete c ≡ some p
      → IsInScope o memory skills p
  from_context o memory skills c p available built h =
      let of = built-IsContextOf lower note_fields_of risk_fields_of o memory skills c built in
      let (raw, answered, validated, scoped, selected) = asked c p h in
      let (no_controls, read, accepted) = read raw p validated in
      let selected : is_available p.selected_skill skills ≡ true =
        subst (λ x. is_available p.selected_skill x ≡ true) of.allowed selected in
      record {
        context = c;
        built = built;
        clean = λ v m. of.clean v (subst (λ x. Inside v (object x)) (sym of.summary) m);
        raw = raw;
        answered = answered;
        no_controls = no_controls;
        read = read;
        accepted = accepted;
        selected = selected;
        in_runtime =
            in_runtime p.selected_skill skills default_runtime_capabilities.available_skills
              available selected;
        cites = in_scope p o c of.summary scoped;
      }

  -- A plan that a call returns is read from the model's answer to the context of the observation and the memory
  -- summary, in which no value of the observation's summary gives a direct control or names hidden state; the answer
  -- gives no direct control, and the plan keeps the constraints of its fields. Its skill is one of the call's and of
  -- the runtime's, and all evidence that it cites with an ID that is not empty is of the observation or of a note of
  -- the context.
  pub plan-IsInScope :
      (o : Observation) (memory : Memory Raw) (given : Option (List SkillName)) (p : PlannerOutput)
      → plan_next_goal lower note_fields_of risk_fields_of fields_of complete o memory given
        ≡ some p
      → IsInScope o memory (call_skills given) p
  unfolding plan_next_goal
  plan-IsInScope o memory given p h =
      let skills = call_skills given in
      let (available, h) =
        require-eq-some (all_available skills default_runtime_capabilities.available_skills) _ h in
      let (unique, h) = require-eq-some (skills_unique skills) _ h in
      let (c, built, h) =
        >>=-eq-some (build_plan_context lower note_fields_of risk_fields_of o memory skills) _ h in
      from_context o memory skills c p available built h
