-- ===== src/Verifier/Backed.antt =====
-- The three verifiers of src/fh_agent/verifier keep the contract of a verdict.
use autonomous_game_agent.Prelude.{
  String, Bool, true, false, not, Option, none, some, List, [], ◌∷◌, ◌≡◌, ◌&&◌, ◌||◌, arith,
  is_empty, if_holds,
}
use autonomous_game_agent.Prelude.Int.{ℤ, pos}
use autonomous_game_agent.Prelude.Ids.{contains, in_any, every_empty, extend_all}
use autonomous_game_agent.Observation.{Observation}
use autonomous_game_agent.Manager.TargetRef.{VisibleObjectTarget, VisibleScreenPointTarget}
use autonomous_game_agent.Verifier.Schemas.{VerifierResult, visibly_dead, abstention, success_with}
use autonomous_game_agent.Verifier.Dialogue
use autonomous_game_agent.Verifier.Interaction
use autonomous_game_agent.Verifier.ReachTarget
use autonomous_game_agent.Verifier.Contract.{
  IsBacked, abstention-IsBacked, death-IsBacked, success-IsBacked,
}

sources_cover :
    (target : Option VisibleObjectTarget) (before after : Observation) (a : String)
    → contains after.evidence_ids a ≡ true
    → in_any (Interaction.evidence_sources target before after) a ≡ true
unfolding Interaction.evidence_sources in_any
sources_cover none before after a h = ground arith
sources_cover (some t) before after a h = ground arith

sources_filled :
    (target : Option VisibleObjectTarget) (before after : Observation)
    → is_empty after.evidence_ids ≡ false
    → every_empty (Interaction.evidence_sources target before after) ≡ false
unfolding Interaction.evidence_sources every_empty
sources_filled none before after h = ground arith
sources_filled (some t) before after h = ground arith

-- A verdict of the dialogue verifier is backed by the evidence of the two observations.
pub dialogue-IsBacked :
    (before after : Observation)
    → IsBacked (before.evidence_ids ∷ after.evidence_ids ∷ []) after (Dialogue.verify before after)
unfolding Dialogue.verify Dialogue.deduplicated_evidence_ids in_any every_empty
dialogue-IsBacked before after =
    if_holds P (visibly_dead after)
      (λ dead.
        if_holds P (not (is_empty after.evidence_ids))
          (λ h. death-IsBacked sources after dead (ground arith) (λ a k. ground arith))
          (λ h. none_yet))
      (λ alive.
        if_holds P
          (not (Dialogue.is_visible_dialogue before)
            || is_empty before.evidence_ids
            || is_empty after.evidence_ids)
          (λ h. none_yet)
          (λ h.
            if_holds P
              (Dialogue.is_visible_dialogue after
                && not (
                    Dialogue.texts_eq (Dialogue.visible_dialogue_text before)
                      (Dialogue.visible_dialogue_text after)))
              (λ k. won alive (ground arith))
              (λ k.
                if_holds P (not (Dialogue.is_visible_dialogue after))
                  (λ l. won alive (ground arith)) (λ l. none_yet))))
  where
    sources : List (List String)
    sources = before.evidence_ids ∷ after.evidence_ids ∷ []

    P : VerifierResult → Type 0
    P = IsBacked sources after

    none_yet : P abstention
    none_yet = abstention-IsBacked sources after

    won :
        visibly_dead after ≡ false
        → is_empty after.evidence_ids ≡ false
        → P (success_with (extend_all [] sources))
    won alive h =
        success-IsBacked sources after sources alive (ground arith) (λ a k. k) (λ a k. ground arith)

-- A verdict of the interaction verifier is backed by the evidence of its target, if it has one, and
-- of the two observations.
pub interaction-IsBacked :
    (target : Option VisibleObjectTarget) (before after : Observation)
    → IsBacked
        (Interaction.evidence_sources target before after)
        after
        (Interaction.verify target before after)
unfolding Interaction.verify Interaction.deduplicated_evidence_ids
interaction-IsBacked target before after =
    if_holds P (visibly_dead after)
      (λ dead.
        if_holds P (not (is_empty after.evidence_ids))
          (λ h.
            death-IsBacked sources after dead (ground arith) (sources_cover target before after))
          (λ h. none_yet))
      (λ alive.
        if_holds P (is_empty before.evidence_ids || is_empty after.evidence_ids) (λ h. none_yet)
          (λ h.
            if_holds P
              (not (Interaction.has_interaction_ui_transition before after)
                && not (
                    not (Interaction.has_visible_text before)
                    && Interaction.has_visible_text after))
              (λ k. none_yet)
              (λ k.
                success-IsBacked sources after sources alive
                  (sources_filled target before after (ground arith)) (λ a l. l)
                  (sources_cover target before after))))
  where
    sources : List (List String)
    sources = Interaction.evidence_sources target before after

    P : VerifierResult → Type 0
    P = IsBacked sources after

    none_yet : P abstention
    none_yet = abstention-IsBacked sources after

module _ {F : Type 0} (hypot : ℤ → ℤ → F) (lt_float : F → F → Bool) where
  judge_position-IsBacked :
      (target : VisibleScreenPointTarget) (tolerance_px : F) (after : Observation) (p : ℤ × ℤ)
      → visibly_dead after ≡ false
      → is_empty after.evidence_ids ≡ false
      → IsBacked
          (target.evidence_ids ∷ after.evidence_ids ∷ [])
          after
          (ReachTarget.judge_position hypot lt_float target tolerance_px after.evidence_ids p)
  unfolding ReachTarget.judge_position ReachTarget.deduplicated_evidence_ids in_any every_empty
  judge_position-IsBacked target tolerance_px after p alive h =
      if_holds (IsBacked sources after)
        (lt_float tolerance_px (
          ReachTarget.distance hypot p
            (pos target.screen_position.0, pos target.screen_position.1)))
        (λ far. abstention-IsBacked sources after)
        (λ near.
          success-IsBacked sources after sources alive (ground arith) (λ a k. k)
            (λ a k. ground arith))
    where
      sources : List (List String)
      sources = target.evidence_ids ∷ after.evidence_ids ∷ []

  -- A verdict of the reach-target verifier is backed by the evidence of its target and of the later
  -- observation.
  pub reach_target-IsBacked :
      (target : VisibleScreenPointTarget) (tolerance_px : F) (before after : Observation)
      → IsBacked
          (target.evidence_ids ∷ after.evidence_ids ∷ [])
          after
          (ReachTarget.verify hypot lt_float target tolerance_px before after)
  unfolding ReachTarget.verify ReachTarget.deduplicated_evidence_ids in_any
  reach_target-IsBacked target tolerance_px before after =
      if_holds P (visibly_dead after)
        (λ dead.
          if_holds P (not (is_empty after.evidence_ids))
            (λ h. death-IsBacked sources after dead (ground arith) (λ a k. ground arith))
            (λ h. none_yet))
        (λ alive.
          if_holds P (is_empty after.evidence_ids) (λ h. none_yet)
            (λ h. located after.player_screen_position alive h))
    where
      sources : List (List String)
      sources = target.evidence_ids ∷ after.evidence_ids ∷ []

      P : VerifierResult → Type 0
      P = IsBacked sources after

      none_yet : P abstention
      none_yet = abstention-IsBacked sources after

      located :
          (o : Option (ℤ × ℤ))
          → visibly_dead after ≡ false
          → is_empty after.evidence_ids ≡ false
          → P (elim o [
            | none ↦ abstention
            | some p ↦
                ReachTarget.judge_position hypot lt_float target tolerance_px after.evidence_ids p
          ])
      located none alive h = none_yet
      located (some p) alive h = judge_position-IsBacked target tolerance_px after p alive h
