-- ===== src/Verifier/Dialogue.antt =====
-- src/fh_agent/verifier/dialogue.py
use autonomous_game_agent.Prelude.{
  String, Bool, true, false, not, Option, none, some, List, [], ◌∷◌, ◌++◌, map, ◌&&◌, ◌||◌,
  if◌then◌else◌, is_empty, is_true, str_eq, ◌≡◌, arith, eq_refl,
}
use autonomous_game_agent.Prelude.Ids.{extend_all}
use autonomous_game_agent.Observation.{Observation, VisibleTextSpan, UiState, ui_eq, has_text}
use autonomous_game_agent.Verifier.Schemas.{
  VerifierResult, abstention, success_with, death_with, visibly_dead,
}

unfoldable pub is_visible_dialogue : Observation → Bool
is_visible_dialogue o =
    ui_eq o.ui_state UiState.dialogue
    || is_true o.message_window_visible
    || has_text o.visible_message_text
    || not (is_empty o.visible_text_spans)

abbrev pub span_text : VisibleTextSpan → String
span_text s = s.text

abbrev message_texts : Option String → List String
message_texts none = []
message_texts (some t) = if has_text (some t) then t ∷ [] else []

unfoldable pub visible_dialogue_text : Observation → List String
visible_dialogue_text o = message_texts o.visible_message_text ++ map span_text o.visible_text_spans

-- `==` on tuples of texts
unfoldable pub texts_eq : List String → List String → Bool
texts_eq [] [] = true
texts_eq [] (y ∷ ys) = false
texts_eq (x ∷ xs) [] = false
texts_eq (x ∷ xs) (y ∷ ys) = str_eq x y && texts_eq xs ys

pub texts_eq_refl : (xs : List String) → texts_eq xs xs ≡ true
unfolding texts_eq
texts_eq_refl [] = ground arith
texts_eq_refl (x ∷ xs) = ground (arith, eq_refl x, texts_eq_refl xs)

unfoldable pub deduplicated_evidence_ids : List (List String) → List String
deduplicated_evidence_ids sources = extend_all [] sources

unfoldable pub verify : Observation → Observation → VerifierResult
verify before after =
    if visibly_dead after
    then (if not (is_empty after.evidence_ids)
        then death_with (deduplicated_evidence_ids (after.evidence_ids ∷ []))
        else abstention)
    else if not (is_visible_dialogue before)
        || is_empty before.evidence_ids
        || is_empty after.evidence_ids
    then abstention
    else if is_visible_dialogue after
        && not (texts_eq (visible_dialogue_text before) (visible_dialogue_text after))
    then success_with (deduplicated_evidence_ids (before.evidence_ids ∷ after.evidence_ids ∷ []))
    else if not (is_visible_dialogue after)
    then success_with (deduplicated_evidence_ids (before.evidence_ids ∷ after.evidence_ids ∷ []))
    else abstention
