-- ===== src/Verifier/Tests.antt =====
-- The theorems on the verifiers, at a dialogue that closes and a walk that arrives.
use autonomous_game_agent.Prelude.{
  ℕ, ◌+◌, true, false, none, some, [], ◌∷◌, ◌≡◌, refl, ◌≢◌, ◌↔◌, ◌⊎◌, ltb, is_empty,
}
use autonomous_game_agent.Prelude.Int.{ℤ, pos, abs}
use autonomous_game_agent.Observation.{Observation}
use autonomous_game_agent.Verifier.Schemas.{VerifierStatus, visibly_dead}
use autonomous_game_agent.Verifier.Dialogue
use autonomous_game_agent.Verifier.Interaction
use autonomous_game_agent.Verifier.ReachTarget
use autonomous_game_agent.Verifier.Outcome.{
  dialogue-success_iff, unchanged_screen_wins_nothing, reach_target-success_iff,
}
use autonomous_game_agent.Samples.{talking, walking, point_target}

-- the distance that a player walks
abbrev taxicab : ℤ → ℤ → ℕ
taxicab x y = abs x + abs y

dialogue-success_iff_example :
    ((Dialogue.verify talking walking).status ≡ VerifierStatus.success) ↔ (
      (visibly_dead walking ≡ false)
      × (Dialogue.is_visible_dialogue talking ≡ true)
      × (is_empty talking.evidence_ids ≡ false)
      × (is_empty walking.evidence_ids ≡ false)
      × ((Dialogue.is_visible_dialogue walking ≡ false)
          ⊎ (Dialogue.texts_eq
                (Dialogue.visible_dialogue_text talking)
                (Dialogue.visible_dialogue_text walking)
              ≡ false)))
dialogue-success_iff_example = dialogue-success_iff talking walking

-- the same dialogue on a later screenshot, after an action
abbrev still_talking : Observation
still_talking = record talking {
  observation_id = some "obs-3";
  screenshot_id = some "shot-3";
  evidence_ids = "shot-3" ∷ [];
}

unchanged_screen_wins_nothing_example :
    ((Dialogue.verify talking still_talking).status ≢ VerifierStatus.success)
    × ((Interaction.verify none talking still_talking).status ≢ VerifierStatus.success)
unchanged_screen_wins_nothing_example =
    unchanged_screen_wins_nothing none talking still_talking
      (record { ui_state = refl; window = refl; message = refl; spans = refl })

reach_target-success_iff_example :
    ((ReachTarget.verify taxicab ltb point_target 4 talking walking).status
      ≡ VerifierStatus.success)
    ↔ ((visibly_dead walking ≡ false)
        × (is_empty walking.evidence_ids ≡ false)
        × ((p : ℤ × ℤ) × (some (pos 3, pos 4) ≡ some p)
            × (ltb 4 (ReachTarget.distance taxicab p (pos 7, pos 4)) ≡ false)))
reach_target-success_iff_example =
    reach_target-success_iff taxicab ltb point_target 4 talking walking
