-- ===== src/Planner/Cortex/Replanned.antt =====
-- How src/fh_agent/planner/context.py takes up what src/fh_agent/manager/replan_context.py appends to a memory summary.
use mathlib.Core.Path.{subst}
use mathlib.Core.Option.{some-injective}
use autonomous_game_agent.Prelude.{
  String, false, Option, none, some, List, [], ◌∷◌, ◌++◌, ◌≡◌, refl, sym, ap, ◌∙◌, is_empty,
}
use autonomous_game_agent.Observation.{Observation}
use autonomous_game_agent.Verifier.Schemas.{VerifierResult}
use autonomous_game_agent.Planner.Json.{Entries}
use autonomous_game_agent.Planner.Output.{RiskLimit}
use autonomous_game_agent.Planner.Notes.{
  NoteStatus, observed_fact, ReflectionNote, Raw, status_of, validated_note, note_of_outcome,
  and_note, coerce_item, coerce_items, coerce_reflection_notes,
}
use autonomous_game_agent.Planner.Context.{CortexContext, build_plan_context}
use autonomous_game_agent.Planner.Cortex.Built.{built-IsContextOf}
use autonomous_game_agent.Manager.TargetRef.{SkillName}
use autonomous_game_agent.Manager.Events.{TaskCompletionEvent}
use autonomous_game_agent.Manager.Replan.{
  OutcomeNote, Item, outcome, Memory, build_replan_memory_summary,
}
use autonomous_game_agent.Manager.Replan.Notes.{IsNoted, Noted, replan_note_is_appended}

-- an outcome's note with evidence is taken up as it is
observed_outcome :
    (n : OutcomeNote)
    → n.status ≡ "observed_fact"
    → is_empty n.evidence_ids ≡ false
    → note_of_outcome n
      ≡ some (record { status = observed_fact; note = n.note; evidence_ids = n.evidence_ids })
unfolding note_of_outcome status_of validated_note
observed_outcome n e h = rw (e, h) refl

module _ (fields_of : Entries → Option ReflectionNote) where
  skipped :
      (a : Option (Option ReflectionNote)) (rest : Option (List ReflectionNote))
      (k : ReflectionNote) (notes : List ReflectionNote)
      → and_note a rest ≡ some notes
      → ((rest' : List ReflectionNote)
          → rest ≡ some rest'
          → (earlier : List ReflectionNote) × (rest' ≡ earlier ++ k ∷ []))
      → (earlier : List ReflectionNote) × (notes ≡ earlier ++ k ∷ [])
  skipped none rest k notes h found = absurd (cc)
  skipped (some none) rest k notes h found = found notes h
  skipped (some (some n)) none k notes h found = absurd (cc)
  skipped (some (some n)) (some rest) k notes h found =
      let (earlier, same) = found rest refl in
      (n ∷ earlier, sym (some-injective (n ∷ rest) notes h) ∙ ap (λ x. n ∷ x) same)

  -- the last of the notes is that of the last item
  coerce_items-snoc :
      (default_status : NoteStatus) (items : List (Item Raw)) (n : OutcomeNote) (k : ReflectionNote)
      (notes : List ReflectionNote)
      → note_of_outcome n ≡ some k
      → coerce_items fields_of default_status (items ++ outcome n ∷ []) ≡ some notes
      → (earlier : List ReflectionNote) × (notes ≡ earlier ++ k ∷ [])
  unfolding coerce_items coerce_item
  coerce_items-snoc default_status [] n k notes e h =
      ([], sym (some-injective (k ∷ []) notes (rw e at h)))
  coerce_items-snoc default_status (x ∷ items) n k notes e h =
      skipped (coerce_item fields_of default_status x) _ k notes h
        (λ rest same. coerce_items-snoc default_status items n k rest e same)

-- After an outcome that is summed up for the next attempt, a context that is built of the new summary ends its
-- outcomes with an observed fact that cites the evidence of the outcome's verdict.
pub replanned_context-cites :
    (lower : String → String) (fields_of : Entries → Option ReflectionNote)
    (risk_fields_of : Entries → Option RiskLimit) (before after : Memory Raw)
    (e : TaskCompletionEvent) (o : Observation) (skills : List SkillName) (c : CortexContext)
    → build_replan_memory_summary before e ≡ some after
    → build_plan_context lower fields_of risk_fields_of o after skills ≡ some c
    → (v : VerifierResult) × (e.verifier_result ≡ some v)
      × ((earlier : List ReflectionNote) × ((note : ReflectionNote) × (c.recent_skill_outcomes
              ≡ earlier ++ note ∷ [])
            × (note.status ≡ observed_fact)
            × (note.evidence_ids ≡ v.evidence_ids)))
unfolding coerce_reflection_notes
replanned_context-cites lower fields_of risk_fields_of before after e o skills c h built =
    let noted : IsNoted before after e =
      subst (Noted before e) h (replan_note_is_appended before e) in
    let of = built-IsContextOf lower fields_of risk_fields_of o after skills c built in
    let n = noted.note in
    let taken = observed_outcome n noted.observed (rw (sym noted.cites) at noted.evidenced) in
    let (earlier, same) =
      coerce_items-snoc fields_of observed_fact noted.old n _ c.recent_skill_outcomes taken
        (ap (coerce_reflection_notes fields_of observed_fact) (sym noted.noted) ∙ of.outcomes) in
    (noted.verdict, noted.carried, (earlier, (_, same, refl, noted.cites)))
