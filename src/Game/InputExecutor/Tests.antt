-- ===== src/Game/InputExecutor/Tests.antt =====
-- The theorems on the executor, at calls that the guards let through and at calls that they block.
use autonomous_game_agent.Prelude.{ℕ, ◌-◌, true, none, List, [], ◌∷◌, ◌≡◌, refl, ltb, if◌then◌else◌}
use autonomous_game_agent.Body.Actions.{PrimitiveAction}
use autonomous_game_agent.Game.Call.{returns}
use autonomous_game_agent.Game.InputExecutor.{
  execute, executed, enable_emergency_stop, clear_emergency_stop,
}
use autonomous_game_agent.Game.InputExecutor.Gates.{
  gates_open, execute_sends_through_gates, execute_answers,
}
use autonomous_game_agent.Game.InputExecutor.Trace.{
  Command, act, enable, clear, run, executions, Spaced, executions-Spaced, emergency_stop_silences,
}
use autonomous_game_agent.Samples.{calm, fresh_executor}

abbrev minus : ℕ → ℕ → ℕ
minus a b = a - b

abbrev calls : List (Command ℕ)
calls =
    act (calm 0) PrimitiveAction.confirm
    ∷ act (calm 0) PrimitiveAction.wait
    ∷ enable
    ∷ act (calm 5) PrimitiveAction.wait
    ∷ clear
    ∷ act (calm 6) PrimitiveAction.cancel
    ∷ []

-- the second call comes too early, the third one in an emergency stop
calls_reach_backend :
    (run minus ltb calls fresh_executor).calls
    ≡ PrimitiveAction.confirm ∷ PrimitiveAction.cancel ∷ []
unfolding run execute clear_emergency_stop enable_emergency_stop
calls_reach_backend = refl

execute_sends_through_gates_example :
    (execute minus ltb (calm 0) PrimitiveAction.confirm fresh_executor).1.calls
    ≡ (if gates_open minus ltb (calm 0) fresh_executor then PrimitiveAction.confirm ∷ [] else [])
execute_sends_through_gates_example =
    execute_sends_through_gates minus ltb (calm 0) PrimitiveAction.confirm fresh_executor

execute_answers_example :
    (execute minus ltb (calm 0) PrimitiveAction.confirm fresh_executor).0
    ≡ returns (executed PrimitiveAction.confirm)
execute_answers_example =
    execute_answers minus ltb (calm 0) PrimitiveAction.confirm fresh_executor refl refl refl

executions-Spaced_example : Spaced minus ltb 1 none (executions minus ltb calls fresh_executor)
executions-Spaced_example = executions-Spaced minus ltb calls fresh_executor

emergency_stop_silences_example :
    (run minus ltb
      (act (calm 1) PrimitiveAction.confirm ∷ enable ∷ [])
      (record fresh_executor { emergency_stop_enabled = true })).calls
    ≡ []
emergency_stop_silences_example =
    emergency_stop_silences minus ltb (act (calm 1) PrimitiveAction.confirm ∷ enable ∷ [])
      (record fresh_executor { emergency_stop_enabled = true }) tt refl
