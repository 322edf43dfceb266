-- ===== src/Manager/SkillRunner/Tests.antt =====
-- A run of the dialogue skill that closes a dialogue, and the theorems on it.
use autonomous_game_agent.Prelude.{ℕ, Bool, true, [], ◌∷◌, ◌≡◌, refl}
use autonomous_game_agent.Body.Actions.{PrimitiveAction, action_in}
use autonomous_game_agent.Observation.{ui_eq, has_text}
use autonomous_game_agent.Game.InputExecutor.{execute}
use autonomous_game_agent.Manager.EventLog.{append_verified_reward, append_verifier_result}
use autonomous_game_agent.Verifier.Schemas.{visibly_dead}
use autonomous_game_agent.Body.Skills.{continue_dialogue_skill}
use autonomous_game_agent.Game.Call.{Call, returns, raises}
use autonomous_game_agent.Verifier.Dialogue
use autonomous_game_agent.Manager.SkillContract.{RunnableSkill, is_dialogue_observation}
use autonomous_game_agent.Manager.SkillRunner.Results.{SkillRunResult, terminal_result}
use autonomous_game_agent.Manager.SkillRunner.Locals.{Outcome}
use autonomous_game_agent.Manager.SkillRunner.Run
use autonomous_game_agent.Manager.SkillRunner.Bounds.{SoundWithin, run_claims_only_verified_success}
use autonomous_game_agent.Manager.SkillRunner.Safety.{run_sends_only_allowed}
use autonomous_game_agent.Manager.SkillRunner.Growth.{Grew}
use autonomous_game_agent.Manager.SkillRunner.Wired.{
  Wiring, wired, sent, wired-IsGuarded, wired-run_sends_only_allowed,
}
use autonomous_game_agent.Samples.{profile, calm, dialogue_wiring, fresh_id}
use autonomous_game_agent.Prelude.{ltb, ◌-◌}

abbrev skill : RunnableSkill
unfolding continue_dialogue_skill
skill = continue_dialogue_skill 3 profile

abbrev minus : ℕ → ℕ → ℕ
minus a b = a - b

abbrev outcome : Outcome (Wiring ℕ)
unfolding Run.run wired
outcome = Run.run (wired minus ltb calm) fresh_id true skill Dialogue.verify dialogue_wiring []

abbrev succeeded : Call SkillRunResult → Bool
succeeded raises = Bool.false
succeeded (returns r) = r.skill_result.success

-- the run confirms once and succeeds
outcome_sends : sent minus ltb calm outcome.world ≡ PrimitiveAction.confirm ∷ []
unfolding outcome skill wired Run.run is_dialogue_observation ui_eq action_in execute
    append_verified_reward append_verifier_result terminal_result Dialogue.verify visibly_dead
    Dialogue.is_visible_dialogue has_text
outcome_sends = refl

outcome_succeeds : succeeded outcome.answer ≡ true
unfolding outcome skill wired Run.run is_dialogue_observation ui_eq action_in execute
    append_verified_reward append_verifier_result terminal_result Dialogue.verify visibly_dead
    Dialogue.is_visible_dialogue has_text
outcome_succeeds = refl

run_claims_only_verified_success_example : SoundWithin Dialogue.verify 3 outcome.answer
unfolding outcome skill wired Run.run
run_claims_only_verified_success_example =
    run_claims_only_verified_success (wired minus ltb calm) fresh_id true skill Dialogue.verify
      dialogue_wiring []

run_sends_only_allowed_example :
    Grew
      (PrimitiveAction.confirm ∷ PrimitiveAction.wait ∷ [])
      3
      []
      (sent minus ltb calm outcome.world)
unfolding outcome skill wired Run.run
run_sends_only_allowed_example =
    run_sends_only_allowed (wired minus ltb calm) fresh_id true skill Dialogue.verify
      (sent minus ltb calm) (wired-IsGuarded minus ltb calm) dialogue_wiring []

wired-run_sends_only_allowed_example :
    Grew
      (PrimitiveAction.confirm ∷ PrimitiveAction.wait ∷ [])
      3
      []
      (sent minus ltb calm outcome.world)
unfolding outcome skill wired Run.run
wired-run_sends_only_allowed_example =
    wired-run_sends_only_allowed minus ltb calm fresh_id true skill Dialogue.verify dialogue_wiring
      []
