-- ===== src/Planner/Cortex/Evidence.antt =====
-- The evidence of a plan and of a context of src/fh_agent/planner/cortex.py, member by member.
use autonomous_game_agent.Prelude.{
  String, true, false, List, [], ◌∷◌, ◌++◌, map, ◌||◌, ◌≡◌, refl, ap, ◌∙◌, arith, is_empty, str_eq,
  eq_iff,
}
use autonomous_game_agent.Prelude.Ids.{contains, contains-append, in_any}
use autonomous_game_agent.Observation.{Observation}
use autonomous_game_agent.Planner.Output.{
  EvidenceBackedClaim, MemoryUpdateRequest, PlannerOutput, texts,
}
use autonomous_game_agent.Planner.Notes.{ReflectionNote}
use autonomous_game_agent.Planner.Json.Dict.{get}
use autonomous_game_agent.Planner.Context.{CortexContext, summarize_observation}
use autonomous_game_agent.Planner.Cortex.{
  nonempty, text_elements, summary_evidence, note_evidence, context_evidence_ids, claim_evidence,
  update_evidence, planner_output_evidence_ids, outside, evidence_in_scope,
}

-- where the evidence of a plan stands
abbrev pub plan_sources : PlannerOutput → List (List String)
plan_sources p =
    map (λ (c : EvidenceBackedClaim). c.evidence_ids) p.current_belief_state
    ++ map (λ (u : MemoryUpdateRequest). u.evidence_ids) p.memory_updates_requested

-- where that of a context stands, for the observation that it is of
abbrev pub context_sources : Observation → CortexContext → List (List String)
context_sources o c =
    o.evidence_ids
    ∷ map (λ (n : ReflectionNote). n.evidence_ids)
        (c.evidence_backed_facts ++ c.hypotheses ++ c.recent_skill_outcomes)

pub in_any-append :
    (xs ys : List (List String)) (a : String) → in_any (xs ++ ys) a ≡ (in_any xs a || in_any ys a)
unfolding in_any
in_any-append [] ys a = refl
in_any-append (x ∷ xs) ys a = ground (arith, in_any-append xs ys a)

contains-nonempty :
    (ids : List String) (a : String)
    → str_eq a "" ≡ false
    → contains (nonempty ids) a ≡ contains ids a
unfolding nonempty contains
contains-nonempty [] a h = refl
contains-nonempty (x ∷ ids) a h = ground (arith, contains-nonempty ids a h, eq_iff x "", eq_iff x a)

contains-claims :
    (claims : List EvidenceBackedClaim) (a : String)
    → contains (claim_evidence claims) a
      ≡ in_any (map (λ (c : EvidenceBackedClaim). c.evidence_ids) claims) a
unfolding claim_evidence in_any contains
contains-claims [] a = refl
contains-claims (c ∷ claims) a =
    contains-append c.evidence_ids (claim_evidence claims) a
    ∙ ap (λ x. contains c.evidence_ids a || x) (contains-claims claims a)

contains-updates :
    (updates : List MemoryUpdateRequest) (a : String)
    → contains (update_evidence updates) a
      ≡ in_any (map (λ (u : MemoryUpdateRequest). u.evidence_ids) updates) a
unfolding update_evidence in_any contains
contains-updates [] a = refl
contains-updates (u ∷ updates) a =
    contains-append u.evidence_ids (update_evidence updates) a
    ∙ ap (λ x. contains u.evidence_ids a || x) (contains-updates updates a)

contains-notes :
    (notes : List ReflectionNote) (a : String)
    → contains (note_evidence notes) a
      ≡ in_any (map (λ (n : ReflectionNote). n.evidence_ids) notes) a
unfolding note_evidence in_any contains
contains-notes [] a = refl
contains-notes (n ∷ notes) a =
    contains-append n.evidence_ids (note_evidence notes) a
    ∙ ap (λ x. contains n.evidence_ids a || x) (contains-notes notes a)

outside-nil :
    (ids known : List String) (a : String)
    → is_empty (outside ids known) ≡ true
    → contains ids a ≡ true
    → contains known a ≡ true
unfolding outside contains
outside-nil [] known a e h = cc
outside-nil (x ∷ ids) known a e h = ground (arith, outside-nil ids known a, eq_iff x a)

text_elements-texts : (ts : List String) → text_elements (texts ts) ≡ ts
unfolding text_elements texts
text_elements-texts [] = refl
text_elements-texts (t ∷ ts) = ap (λ x. t ∷ x) (text_elements-texts ts)

summary_evidence-observation :
    (o : Observation)
    → summary_evidence (get "evidence_ids" (summarize_observation o)) ≡ o.evidence_ids
unfolding summary_evidence get summarize_observation
summary_evidence-observation o = text_elements-texts o.evidence_ids

-- Evidence that a plan in scope cites, and whose ID is not empty, is of the observation or of a note.
pub in_scope :
    (p : PlannerOutput) (o : Observation) (c : CortexContext)
    → c.observation_summary ≡ summarize_observation o
    → evidence_in_scope p c ≡ true
    → (a : String) → str_eq a "" ≡ false
    → in_any (plan_sources p) a ≡ true
    → in_any (context_sources o c) a ≡ true
unfolding evidence_in_scope planner_output_evidence_ids context_evidence_ids in_any
in_scope p o c same h a named cited =
    let claims = claim_evidence p.current_belief_state in
    let updates = update_evidence p.memory_updates_requested in
    let notes = c.evidence_backed_facts ++ c.hypotheses ++ c.recent_skill_outcomes in
    let summary = summary_evidence (get "evidence_ids" c.observation_summary) in
    let summarised : summary ≡ o.evidence_ids =
      ap (λ s. summary_evidence (get "evidence_ids" s)) same ∙ summary_evidence-observation o in
    let known = outside-nil (planner_output_evidence_ids p) (context_evidence_ids c) a h (
      ground (
        arith,
        contains-nonempty (claims ++ updates) a named,
        contains-append claims updates a,
        contains-claims p.current_belief_state a,
        contains-updates p.memory_updates_requested a,
        in_any-append (map (λ (c : EvidenceBackedClaim). c.evidence_ids) p.current_belief_state)
            (map (λ (u : MemoryUpdateRequest). u.evidence_ids) p.memory_updates_requested) a,
      )) in
    ground (
      arith,
      known,
      contains-nonempty (summary ++ note_evidence notes) a named,
      contains-append summary (note_evidence notes) a,
      contains-notes notes a,
      ap (λ s. contains s a) summarised,
    )
