-- ===== src/Planner/Cortex.antt =====
-- src/fh_agent/planner/cortex.py: one planning call. `complete` stands for the model client on the messages that are
-- built of a context, and for reading its answer as JSON: none where the client raises or the answer is no JSON.
-- By the other parameters pydantic reads fields. The call of a reflection is left out.
pub mod Evidence
pub mod Built
pub mod Scope
pub mod Replanned
mod Tests
use autonomous_game_agent.Prelude.{
  String, Bool, true, false, not, Option, none, some, List, [], ◌∷◌, ◌++◌, ◌&&◌, is_empty,
  if◌then◌else◌, str_eq, ◌>>=◌, require,
}
use autonomous_game_agent.Prelude.Ids.{contains}
use autonomous_game_agent.Observation.{Observation}
use autonomous_game_agent.Planner.Json.{
  Json, text, atom, array, object, Items, no_items, item, Entries,
}
use autonomous_game_agent.Planner.Json.Dict.{get}
use autonomous_game_agent.Planner.Output.{
  EvidenceBackedClaim, MemoryUpdateRequest, PlannerOutput, RiskLimit, model_validate,
}
use autonomous_game_agent.Planner.Notes.{ReflectionNote, Raw}
use autonomous_game_agent.Planner.Context.{CortexContext, build_plan_context}
use autonomous_game_agent.Manager.TargetRef.{SkillName}
use autonomous_game_agent.Manager.Capabilities.{
  SkillCapabilityContract, is_available, skills_unique, default_runtime_capabilities,
}
use autonomous_game_agent.Manager.Replan.{Memory}

-- the IDs that are not empty
unfoldable pub nonempty : List String → List String
nonempty [] = []
nonempty (a ∷ ids) = if str_eq a "" then nonempty ids else a ∷ nonempty ids

-- the texts of a sequence
unfoldable pub text_elements : Items → List String
text_elements no_items = []
text_elements (item (text t) vs) = t ∷ text_elements vs
text_elements (item (atom a) vs) = text_elements vs
text_elements (item (array ws) vs) = text_elements vs
text_elements (item (object kvs) vs) = text_elements vs

-- the evidence that the summary of the observation gives
unfoldable pub summary_evidence : Option Json → List String
unfolding text_elements
summary_evidence none = []
summary_evidence (some (array vs)) = text_elements vs
summary_evidence (some (text t)) = []
summary_evidence (some (atom a)) = []
summary_evidence (some (object kvs)) = []

unfoldable pub note_evidence : List ReflectionNote → List String
note_evidence [] = []
note_evidence (n ∷ notes) = n.evidence_ids ++ note_evidence notes

-- `_context_evidence_ids`; a set as a list, which may repeat
unfoldable pub context_evidence_ids : CortexContext → List String
unfolding nonempty summary_evidence note_evidence get
context_evidence_ids c = nonempty (
    summary_evidence (get "evidence_ids" c.observation_summary)
    ++ note_evidence (c.evidence_backed_facts ++ c.hypotheses ++ c.recent_skill_outcomes))

unfoldable pub claim_evidence : List EvidenceBackedClaim → List String
claim_evidence [] = []
claim_evidence (c ∷ claims) = c.evidence_ids ++ claim_evidence claims

unfoldable pub update_evidence : List MemoryUpdateRequest → List String
update_evidence [] = []
update_evidence (u ∷ updates) = u.evidence_ids ++ update_evidence updates

-- `_planner_output_evidence_ids`
unfoldable pub planner_output_evidence_ids : PlannerOutput → List String
unfolding nonempty claim_evidence update_evidence
planner_output_evidence_ids p =
    nonempty (claim_evidence p.current_belief_state ++ update_evidence p.memory_updates_requested)

-- the IDs of the first set that are not in the second
unfoldable pub outside : List String → List String → List String
unfolding contains
outside [] known = []
outside (a ∷ ids) known = if contains known a then outside ids known else a ∷ outside ids known

-- `_validate_planner_output_evidence_scope`: true where it returns
unfoldable pub evidence_in_scope : PlannerOutput → CortexContext → Bool
unfolding planner_output_evidence_ids context_evidence_ids outside
evidence_in_scope p c = is_empty (outside (planner_output_evidence_ids p) (context_evidence_ids c))

-- `not (set(call_skills) - set(runtime_skills))`
unfoldable pub all_available : List SkillName → List SkillName → Bool
unfolding is_available
all_available [] runtime = true
all_available (s ∷ skills) runtime = is_available s runtime && all_available skills runtime

-- the skills of the call: those that the caller gave, or those of the runtime
abbrev pub call_skills : Option (List SkillName) → List SkillName
call_skills none = default_runtime_capabilities.available_skills
call_skills (some skills) = skills

module _ (lower : String → String) (note_fields_of : Entries → Option ReflectionNote)
    (risk_fields_of : Entries → Option RiskLimit) (fields_of : Json → Option PlannerOutput)
    (complete : CortexContext → Option Json) where
  -- what is done with the context: ask, read the answer, and check its evidence and its skill
  unfoldable pub ask : CortexContext → Option PlannerOutput
  unfolding model_validate evidence_in_scope is_available
  ask c = do
    raw ← complete c
    p ← model_validate fields_of raw
    require (evidence_in_scope p c)
        (require (is_available p.selected_skill c.allowed_skills) (some p))

  -- `Cortex.plan_next_goal`: none where it raises
  unfoldable pub plan_next_goal :
      Observation → Memory Raw → Option (List SkillName) → Option PlannerOutput
  unfolding all_available skills_unique build_plan_context ask
  plan_next_goal o memory given =
      let skills = call_skills given in
      require (all_available skills default_runtime_capabilities.available_skills) (
        require (skills_unique skills)
          (build_plan_context lower note_fields_of risk_fields_of o memory skills >>= ask))
