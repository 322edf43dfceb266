-- ===== src/Verifier/ReachTarget.antt =====
-- src/fh_agent/verifier/reach_target.py. Floats are a parameter: their type `F`, `math.hypot` of
-- two integers, and `<`.
use autonomous_game_agent.Prelude.{
  String, Bool, not, none, some, List, [], ◌∷◌, if◌then◌else◌, is_empty,
}
use autonomous_game_agent.Prelude.Int.{ℤ, pos, ◌-ℤ◌}
use autonomous_game_agent.Prelude.Ids.{extend_all}
use autonomous_game_agent.Observation.{Observation}
use autonomous_game_agent.Manager.TargetRef.{VisibleScreenPointTarget}
use autonomous_game_agent.Verifier.Schemas.{
  VerifierResult, abstention, success_with, death_with, visibly_dead,
}

unfoldable pub deduplicated_evidence_ids : List (List String) → List String
deduplicated_evidence_ids sources = extend_all [] sources

unfoldable pub distance : {F : Type 0} → (ℤ → ℤ → F) → ℤ × ℤ → ℤ × ℤ → F
distance hypot first second = hypot (second.0 -ℤ first.0) (second.1 -ℤ first.1)

module _ {F : Type 0} (hypot : ℤ → ℤ → F) (lt_float : F → F → Bool) where
  -- The player is visible at `p`.
  unfoldable pub judge_position :
      VisibleScreenPointTarget → F → List String → ℤ × ℤ → VerifierResult
  judge_position target tolerance_px outcome_evidence_ids p =
      if lt_float tolerance_px
        (distance hypot p (pos target.screen_position.0, pos target.screen_position.1))
      then abstention
      else success_with
          (deduplicated_evidence_ids (target.evidence_ids ∷ outcome_evidence_ids ∷ []))

  unfoldable pub verify : VisibleScreenPointTarget → F → Observation → Observation → VerifierResult
  verify target tolerance_px before after =
      if visibly_dead after
      then (if not (is_empty after.evidence_ids)
          then death_with (deduplicated_evidence_ids (after.evidence_ids ∷ []))
          else abstention)
      else if is_empty after.evidence_ids
      then abstention
      else elim after.player_screen_position [
        | none ↦ abstention
        | some p ↦ judge_position target tolerance_px after.evidence_ids p
      ]
