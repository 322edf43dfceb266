-- ===== src/Verifier/Outcome.antt =====
-- When the verifiers of src/fh_agent/verifier report success.
use autonomous_game_agent.Prelude.{
  Bool, true, false, Option, some, List, [], ◌∷◌, map, refl, sym, ap, ◌∙◌, ◌≡◌, ◌≢◌, ◌↔◌, ◌⊎◌,
  arith, is_empty, Option-cases, inl, inr,
}
use autonomous_game_agent.Prelude.Int.{ℤ, pos}
use autonomous_game_agent.Observation.{Observation, VisibleTextSpan, ui_eq, ui_eq_refl}
use autonomous_game_agent.Manager.TargetRef.{VisibleObjectTarget, VisibleScreenPointTarget}
use autonomous_game_agent.Verifier.Schemas.{VerifierStatus, visibly_dead}
use autonomous_game_agent.Verifier.Dialogue
use autonomous_game_agent.Verifier.Dialogue.{texts_eq_refl, span_text}
use autonomous_game_agent.Verifier.Interaction
use autonomous_game_agent.Verifier.ReachTarget

-- Dialogue succeeds exactly when the player is not visibly dead, there was a visible dialogue, both
-- observations carry evidence, and the dialogue is closed or shows another text.
pub dialogue-success_iff :
    (before after : Observation)
    → ((Dialogue.verify before after).status ≡ VerifierStatus.success) ↔ (
        (visibly_dead after ≡ false)
        × (Dialogue.is_visible_dialogue before ≡ true)
        × (is_empty before.evidence_ids ≡ false)
        × (is_empty after.evidence_ids ≡ false)
        × ((Dialogue.is_visible_dialogue after ≡ false)
            ⊎ (Dialogue.texts_eq
                  (Dialogue.visible_dialogue_text before)
                  (Dialogue.visible_dialogue_text after)
                ≡ false)))
unfolding Dialogue.verify
dialogue-success_iff before after = (ground arith, ground arith)

-- The screens show the same as far as the verifiers of dialogue and interaction look: the same UI state, message window,
-- message and texts of spans. All else may differ, so evidence, IDs, confidences, sprites and the last action.
pub record ShowsSame (before after : Observation) : Type 0 where
  pub ui_state : before.ui_state ≡ after.ui_state
  pub window : before.message_window_visible ≡ after.message_window_visible
  pub message : before.visible_message_text ≡ after.visible_message_text
  pub spans : map span_text before.visible_text_spans ≡ map span_text after.visible_text_spans

any_span_text-map :
    (xs ys : List VisibleTextSpan)
    → map span_text xs ≡ map span_text ys
    → Interaction.any_span_text xs ≡ Interaction.any_span_text ys
unfolding Interaction.any_span_text
any_span_text-map [] [] e = refl
any_span_text-map [] (y ∷ ys) e = absurd (cc)
any_span_text-map (x ∷ xs) [] e = absurd (cc)
any_span_text-map (x ∷ xs) (y ∷ ys) e = let texts = any_span_text-map xs ys (cc) in cc (e, texts)

has_visible_text-same :
    (before after : Observation)
    → ShowsSame before after
    → Interaction.has_visible_text before ≡ Interaction.has_visible_text after
unfolding Interaction.has_visible_text
has_visible_text-same before after h = cc (h.message, any_span_text-map _ _ h.spans)

visible_dialogue_text-same :
    (before after : Observation)
    → ShowsSame before after
    → Dialogue.visible_dialogue_text before ≡ Dialogue.visible_dialogue_text after
unfolding Dialogue.visible_dialogue_text
visible_dialogue_text-same before after h = cc (h.message, h.spans)

is_empty-map :
    (xs ys : List VisibleTextSpan) → map span_text xs ≡ map span_text ys → is_empty xs ≡ is_empty ys
is_empty-map [] [] e = refl
is_empty-map [] (y ∷ ys) e = absurd (cc)
is_empty-map (x ∷ xs) [] e = absurd (cc)
is_empty-map (x ∷ xs) (y ∷ ys) e = refl

is_visible_dialogue-same :
    (before after : Observation)
    → ShowsSame before after
    → Dialogue.is_visible_dialogue before ≡ Dialogue.is_visible_dialogue after
unfolding Dialogue.is_visible_dialogue
is_visible_dialogue-same before after h =
    cc (h.ui_state, h.window, h.message, is_empty-map _ _ h.spans)

-- Two screens that show the same UI state, message window, message and span texts earn no success, from the dialogue
-- verifier or from the interaction verifier, whatever else of the two observations differs: evidence, IDs, confidences,
-- sprites or the result of the last action.
pub unchanged_screen_wins_nothing :
    (target : Option VisibleObjectTarget) (before after : Observation)
    → ShowsSame before after
    → ((Dialogue.verify before after).status ≢ VerifierStatus.success)
      × ((Interaction.verify target before after).status ≢ VerifierStatus.success)
unfolding Dialogue.verify Interaction.verify Interaction.has_interaction_ui_transition
unchanged_screen_wins_nothing target before after h =
    let texts = Dialogue.visible_dialogue_text before in
    let same_texts : Dialogue.texts_eq texts (Dialogue.visible_dialogue_text after) ≡ true =
      ap (Dialogue.texts_eq texts) (sym (visible_dialogue_text-same before after h))
      ∙ texts_eq_refl texts in
    let same_ui : ui_eq after.ui_state before.ui_state ≡ true =
      ap (ui_eq after.ui_state) h.ui_state ∙ ui_eq_refl after.ui_state in
    (
      ground (arith, same_texts, is_visible_dialogue-same before after h),
      ground (arith, same_ui, has_visible_text-same before after h),
    )

module _ {F : Type 0} (hypot : ℤ → ℤ → F) (lt_float : F → F → Bool) where
  -- The reach-target verifier succeeds exactly when the player is not visibly dead, the later
  -- observation carries evidence, and the player is visible at a distance from the target that does
  -- not exceed the tolerance.
  pub reach_target-success_iff :
      (target : VisibleScreenPointTarget) (tolerance_px : F) (before after : Observation)
      → ((ReachTarget.verify hypot lt_float target tolerance_px before after).status
          ≡ VerifierStatus.success)
        ↔ ((visibly_dead after ≡ false)
            × (is_empty after.evidence_ids ≡ false)
            × ((p : ℤ × ℤ) × (after.player_screen_position ≡ some p)
                × (lt_float tolerance_px (
                      ReachTarget.distance hypot p
                        (pos target.screen_position.0, pos target.screen_position.1))
                    ≡ false)))
  unfolding ReachTarget.verify ReachTarget.judge_position
  reach_target-success_iff target tolerance_px before after =
      elim (Option-cases after.player_screen_position) [
        | inl e ↦ (λ h. ground arith, λ h. ground arith)
        | inr (p, e) ↦ (λ h. (ground arith, ground arith, (p, e, ground arith)), λ h. ground arith)
      ]
