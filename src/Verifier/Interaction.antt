-- ===== src/Verifier/Interaction.antt =====
-- src/fh_agent/verifier/interaction.py
use autonomous_game_agent.Prelude.{
  String, Bool, false, not, Option, none, some, List, [], ◌∷◌, ◌&&◌, ◌||◌, if◌then◌else◌, is_empty,
}
use autonomous_game_agent.Prelude.Ids.{extend_all}
use autonomous_game_agent.Observation.{Observation, VisibleTextSpan, UiState, ui_eq, has_text}
use autonomous_game_agent.Manager.TargetRef.{VisibleObjectTarget}
use autonomous_game_agent.Verifier.Schemas.{
  VerifierResult, abstention, success_with, death_with, visibly_dead,
}

-- `any(span.text for span in spans)`
unfoldable pub any_span_text : List VisibleTextSpan → Bool
any_span_text [] = false
any_span_text (s ∷ spans) = has_text (some s.text) || any_span_text spans

unfoldable pub has_visible_text : Observation → Bool
has_visible_text o = has_text o.visible_message_text || any_span_text o.visible_text_spans

unfoldable pub has_interaction_ui_transition : Observation → Observation → Bool
has_interaction_ui_transition before after =
    (ui_eq after.ui_state UiState.dialogue
      || ui_eq after.ui_state UiState.menu
      || ui_eq after.ui_state UiState.combat)
    && not (ui_eq after.ui_state before.ui_state)

unfoldable pub evidence_sources :
    Option VisibleObjectTarget → Observation → Observation → List (List String)
evidence_sources none before after = before.evidence_ids ∷ after.evidence_ids ∷ []
evidence_sources (some t) before after =
    t.evidence_ids ∷ before.evidence_ids ∷ after.evidence_ids ∷ []

unfoldable pub deduplicated_evidence_ids : List (List String) → List String
deduplicated_evidence_ids sources = extend_all [] sources

unfoldable pub verify : Option VisibleObjectTarget → Observation → Observation → VerifierResult
verify target before after =
    if visibly_dead after
    then (if not (is_empty after.evidence_ids)
        then death_with (deduplicated_evidence_ids (after.evidence_ids ∷ []))
        else abstention)
    else if is_empty before.evidence_ids || is_empty after.evidence_ids
    then abstention
    else if not (has_interaction_ui_transition before after)
        && not (not (has_visible_text before) && has_visible_text after)
    then abstention
    else success_with (deduplicated_evidence_ids (evidence_sources target before after))
