-- ===== src/Game/InputExecutor/Gates.antt =====
-- Which calls of `execute` reach the backend, and what the others answer.
use autonomous_game_agent.Prelude.{
  Bool, true, false, not, Option, none, some, [], ◌∷◌, ◌++◌, ◌≡◌, ◌&&◌, ◌||◌, arith, if◌then◌else◌,
}
use autonomous_game_agent.Body.Actions.{PrimitiveAction}
use autonomous_game_agent.Observation.{ActionResult}
use autonomous_game_agent.Game.Call.{Call, returns, raises}
use autonomous_game_agent.Game.InputExecutor.{
  BlockedReason, Answers, Executor, fail_closed, blocked, executed, execute,
}

module _ {T : Type 0} (sub : T → T → T) (lt : T → T → Bool) where
  abbrev stop_clear : Answers T → Executor T → Bool
  stop_clear r e = not e.emergency_stop_enabled && (not e.has_check || not (fail_closed r.check))

  abbrev in_focus : Call Bool → Bool
  in_focus (returns b) = b
  in_focus raises = false

  abbrev spaced : Call T → Option T → T → Bool
  spaced raises last min = false
  spaced (returns t) none min = true
  spaced (returns t) (some last) min = not (lt (sub t last) min)

  -- Every guard is open: the clock answers, no emergency stop holds, the window has focus, and the
  -- interval since the last execution is not too short.
  abbrev pub gates_open : Answers T → Executor T → Bool
  gates_open r e =
      stop_clear r e && (in_focus r.focused && spaced r.now e.last_execution e.min_interval)

  -- What the call answers when nothing that it asks raises: the first guard that is shut, in the
  -- order emergency stop, focus, rate.
  abbrev answer : Answers T → PrimitiveAction → Executor T → T → ActionResult
  answer r a e t =
      if not (stop_clear r e)
      then blocked a BlockedReason.emergency_stop
      else if not (in_focus r.focused)
      then blocked a BlockedReason.not_focused
      else if not (spaced (returns t) e.last_execution e.min_interval)
      then blocked a BlockedReason.rate_limited
      else executed a

  module _ (r : Answers T) (a : PrimitiveAction) (e : Executor T) where
    -- The backend is called exactly when every guard is open, and then once, with the action; any other
    -- call leaves what the backend was given as it was.
    pub execute_sends_through_gates :
        (execute sub lt r a e).1.calls ≡ (if gates_open r e then e.calls ++ a ∷ [] else e.calls)
    unfolding execute
    execute_sends_through_gates = ground arith

    -- When the clock, the focus guard and the backend answer, the result names the first guard that is
    -- shut, in the order emergency stop, focus, rate, or is an execution; an emergency-stop check that
    -- raises counts as a stop.
    pub execute_answers :
        {t : T} {b : Bool} {u : Unit {0}}
        → r.now ≡ returns t
        → r.focused ≡ returns b
        → r.sent ≡ returns u
        → (execute sub lt r a e).0 ≡ returns (answer r a e t)
    unfolding execute
    execute_answers {t} {b} {u} now focused sent = ground arith

    -- No call changes the interval, whether there is a check, or the emergency stop that was set.
    pub execute_frame :
        ((execute sub lt r a e).1.min_interval ≡ e.min_interval)
        × ((execute sub lt r a e).1.has_check ≡ e.has_check)
        × ((execute sub lt r a e).1.emergency_stop_enabled ≡ e.emergency_stop_enabled)
    unfolding execute
    execute_frame = ground arith
