-- ===== src/Planner/Output.antt =====
-- The field models of src/fh_agent/planner/planner_output.py: the planner's output, its constraints, and what
-- `model_dump(mode="json")` makes of it. A danger score is in units of 2^-1074.
use autonomous_game_agent.Prelude.{
  ℕ, ◌^◌, String, Bool, true, false, not, Option, none, some, List, [], ◌∷◌, ◌&&◌, is_empty, leb,
}
use autonomous_game_agent.Manager.TargetRef.{SkillName, skill_text}
use autonomous_game_agent.Planner.Json.{
  Json, text, atom, array, object, Items, no_items, item, Entries, no_entries, entry, Atom,
}
use autonomous_game_agent.Planner.Contract.{reject_direct_control_plans}

pub data ClaimKind : Type 0 where
  fact hypothesis : ClaimKind

abbrev pub kind_text : ClaimKind → String
kind_text fact = "fact"
kind_text hypothesis = "hypothesis"

pub record EvidenceBackedClaim : Type 0 where
  pub kind : ClaimKind
  pub claim : String
  pub evidence_ids : List String

pub record MemoryUpdateRequest : Type 0 where
  pub claim : String
  pub evidence_ids : List String
  pub reason : Option String

pub record RiskLimit : Type 0 where
  pub avoid_known_dangers : Bool
  pub max_danger_score : ℕ

pub record PlannerOutput : Type 0 where
  pub current_belief_state : List EvidenceBackedClaim
  pub open_questions : List String
  pub next_goal : String
  pub selected_skill : SkillName
  pub success_condition : List String
  pub risk_limit : RiskLimit
  pub memory_updates_requested : List MemoryUpdateRequest

-- `facts_require_evidence`: true where it returns, on every claim
unfoldable pub facts_require_evidence : List EvidenceBackedClaim → Bool
facts_require_evidence [] = true
facts_require_evidence (c ∷ claims) =
    elim c.kind [ fact ↦ not (is_empty c.evidence_ids) | hypothesis ↦ true ]
    && facts_require_evidence claims

-- `min_length=1` on the evidence of every update
unfoldable pub updates_have_evidence : List MemoryUpdateRequest → Bool
updates_have_evidence [] = true
updates_have_evidence (u ∷ updates) = not (is_empty u.evidence_ids) && updates_have_evidence updates

-- `le=1.0`
unfoldable pub risk_accepted : RiskLimit → Bool
risk_accepted r = leb r.max_danger_score (2 ^ 1074)

-- the field constraints of the model: true where they hold
unfoldable pub output_accepted : PlannerOutput → Bool
unfolding facts_require_evidence updates_have_evidence risk_accepted
output_accepted p =
    facts_require_evidence p.current_belief_state
    && updates_have_evidence p.memory_updates_requested
    && risk_accepted p.risk_limit

-- a list of texts, and a text that may be missing
unfoldable pub texts : List String → Items
texts [] = no_items
texts (t ∷ ts) = item (text t) (texts ts)

abbrev pub optional_text : Option String → Json
optional_text none = atom Atom.null
optional_text (some t) = text t

unfoldable pub claim_items : List EvidenceBackedClaim → Items
unfolding texts
claim_items [] = no_items
claim_items (c ∷ claims) =
    item
      (object (
        entry "kind" (text (kind_text c.kind)) (
          entry "claim" (text c.claim)
            (entry "evidence_ids" (array (texts c.evidence_ids)) no_entries))))
      (claim_items claims)

unfoldable pub update_items : List MemoryUpdateRequest → Items
unfolding texts
update_items [] = no_items
update_items (u ∷ updates) =
    item
      (object (
        entry "claim" (text u.claim) (
          entry "evidence_ids" (array (texts u.evidence_ids))
            (entry "reason" (optional_text u.reason) no_entries))))
      (update_items updates)

abbrev pub risk_entries : RiskLimit → Entries
risk_entries r =
    entry "avoid_known_dangers" (atom (Atom.truth r.avoid_known_dangers))
      (entry "max_danger_score" (atom Atom.number) no_entries)

-- `model_dump(mode="json")`
unfoldable pub model_dump : PlannerOutput → Json
unfolding claim_items update_items texts
model_dump p = object (
    entry "current_belief_state" (array (claim_items p.current_belief_state)) (
      entry "open_questions" (array (texts p.open_questions)) (
        entry "next_goal" (text p.next_goal) (
          entry "selected_skill" (text (skill_text p.selected_skill)) (
            entry "success_condition" (array (texts p.success_condition)) (
              entry "risk_limit" (object (risk_entries p.risk_limit)) (
                entry "memory_updates_requested" (array (update_items p.memory_updates_requested))
                  no_entries)))))))

-- `PlannerOutput.model_validate` on raw data: the validator that runs before the fields, then `fields_of`, by
-- which pydantic reads the fields, then their constraints. `none` where it raises.
unfoldable pub model_validate : (Json → Option PlannerOutput) → Json → Option PlannerOutput
unfolding output_accepted
model_validate fields_of raw = elim (reject_direct_control_plans raw) [
  | some r ↦ none
  | none ↦ elim (fields_of raw) [
    | none ↦ none
    | some p ↦ elim (output_accepted p) [ true ↦ some p | false ↦ none ]
  ]
]
