-- ===== src/Game/InputExecutor.antt =====
-- src/fh_agent/game/input_executor.py. Floats (the clock's seconds) are a parameter: their type `T`,
-- zero, `-` and `<`. What the clock, the emergency-stop check, the focus guard and the backend answer
-- to one call of `execute` is an argument of it; any of them may raise.
pub mod Gates
pub mod Trace
mod Tests
use autonomous_game_agent.Prelude.{
  String, Bool, true, false, not, Option, none, some, List, [], ◌∷◌, ◌++◌, ◌||◌, if◌then◌else◌,
}
use autonomous_game_agent.Body.Actions.{PrimitiveAction, action_value}
use autonomous_game_agent.Observation.{ActionResult}
use autonomous_game_agent.Game.Call.{Call, returns, raises}

-- `BlockedReason`
pub data BlockedReason : Type 0 where
  not_focused emergency_stop rate_limited : BlockedReason

unfoldable pub reason_text : BlockedReason → String
reason_text BlockedReason.not_focused = "not_focused"
reason_text BlockedReason.emergency_stop = "emergency_stop"
reason_text BlockedReason.rate_limited = "rate_limited"

-- The answers of the outside to one call of `execute`; `check` is read only if there is a check.
pub record Answers (T : Type 0) : Type 0 where
  pub now : Call T
  pub check : Call Bool
  pub focused : Call Bool
  pub sent : Call (Unit {0})

-- `calls` are the calls of `backend.send` so far, first to last.
pub record Executor (T : Type 0) : Type 0 where
  pub min_interval : T
  pub has_check : Bool
  pub emergency_stop_enabled : Bool
  pub last_execution : Option T
  pub calls : List PrimitiveAction

unfoldable pub blocked : PrimitiveAction → BlockedReason → ActionResult
unfolding reason_text
blocked a reason = record {
  action = action_value a;
  executed = false;
  blocked_reason = some (reason_text reason);
  evidence_ids = [];
}

unfoldable pub executed : PrimitiveAction → ActionResult
executed a = record {
  action = action_value a;
  executed = true;
  blocked_reason = none;
  evidence_ids = [];
}

-- a check that raises counts as triggered
abbrev pub fail_closed : Call Bool → Bool
fail_closed (returns b) = b
fail_closed raises = true

-- `__init__`; `none` where it raises
unfoldable pub new_executor : {T : Type 0} → T → (T → T → Bool) → T → Bool → Option (Executor T)
new_executor zero_T lt min_interval has_check =
    if lt min_interval zero_T
    then none
    else some (record {
      min_interval = min_interval;
      has_check = has_check;
      emergency_stop_enabled = false;
      last_execution = none;
      calls = [];
    })

module _ {T : Type 0} where
  unfoldable pub enable_emergency_stop : Executor T → Executor T
  enable_emergency_stop e = record e { emergency_stop_enabled = true }

  unfoldable pub clear_emergency_stop : Executor T → Executor T
  clear_emergency_stop e = record e { emergency_stop_enabled = false }

  unfoldable pub emergency_stop_is_triggered : Answers T → Executor T → Bool
  emergency_stop_is_triggered r e =
      e.emergency_stop_enabled || (if e.has_check then fail_closed r.check else false)

  -- `backend.send`, and what follows it
  unfoldable pub send :
      Answers T → T → PrimitiveAction → Executor T → Call ActionResult × Executor T
  unfolding executed
  send r timestamp a e =
      let e' = record e { calls = e.calls ++ a ∷ [] } in
      elim r.sent [
        | returns _ ↦ (returns (executed a), record e' { last_execution = some timestamp })
        | raises ↦ (raises, e')
      ]

module _ {T : Type 0} (sub : T → T → T) (lt : T → T → Bool) where
  unfoldable pub is_rate_limited : T → Executor T → Bool
  is_rate_limited timestamp e = elim e.last_execution [
    | none ↦ false
    | some last ↦ lt (sub timestamp last) e.min_interval
  ]

  unfoldable pub pace :
      Answers T → T → PrimitiveAction → Executor T → Call ActionResult × Executor T
  unfolding is_rate_limited send blocked
  pace r timestamp a e =
      if is_rate_limited timestamp e
      then (returns (blocked a BlockedReason.rate_limited), e)
      else send r timestamp a e

  unfoldable pub focus :
      Answers T → T → PrimitiveAction → Executor T → Call ActionResult × Executor T
  unfolding pace blocked
  focus r timestamp a e = elim r.focused [
    | raises ↦ (raises, e)
    | returns b ↦
        if not b then (returns (blocked a BlockedReason.not_focused), e) else pace r timestamp a e
  ]

  unfoldable pub execute : Answers T → PrimitiveAction → Executor T → Call ActionResult × Executor T
  unfolding emergency_stop_is_triggered focus blocked
  execute r a e = elim r.now [
    | raises ↦ (raises, e)
    | returns timestamp ↦
        if emergency_stop_is_triggered r e
        then (returns (blocked a BlockedReason.emergency_stop), e)
        else focus r timestamp a e
  ]
