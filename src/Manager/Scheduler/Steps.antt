-- ===== src/Manager/Scheduler/Steps.antt =====
-- The methods of the scheduler as one step function over calls.
use autonomous_game_agent.Prelude.{String, Bool, true, false, Option, List, [], ◌∷◌}
use autonomous_game_agent.Verifier.Schemas.{VerifierResult}
use autonomous_game_agent.Manager.Task.{TaskSpec, ManagerStopResult}
use autonomous_game_agent.Manager.Scheduler.{
  Scheduler, Answer, ok, error, enqueue, start_next, tick, mark_success, mark_failure,
  cancel_current, complete_from_verifier, complete_from_manager_stop,
}

pub data Op : Type 0 where
  submit : TaskSpec → Op
  start : Op
  time : Op
  succeed : String → List String → Op
  fail : String → List String → Option String → Op
  abort : String → List String → Op
  verdict : VerifierResult → Option String → Op
  halt : ManagerStopResult → Option String → Op

unfoldable pub step : Op → Scheduler → Scheduler
step (submit spec) s = (enqueue spec s).1
step start s = (start_next s).1
step time s = (tick s).1
step (succeed c ids) s = (mark_success c ids s).1
step (fail c ids r) s = (mark_failure c ids r s).1
step (abort r ids) s = (cancel_current r ids s).1
step (verdict r i) s = (complete_from_verifier r i s).1
step (halt r i) s = (complete_from_manager_stop r i s).1

unfoldable pub run : List Op → Scheduler → Scheduler
unfolding step
run [] s = s
run (op ∷ ops) s = run ops (step op s)

abbrev pub is_error : {A : Type 0} → Answer A → Bool
is_error (ok a) = false
is_error (error x) = true

-- The call raises.
unfoldable pub raises : Op → Scheduler → Bool
raises (submit spec) s = false
raises start s = false
raises time s = is_error (tick s).0
raises (succeed c ids) s = is_error (mark_success c ids s).0
raises (fail c ids r) s = is_error (mark_failure c ids r s).0
raises (abort r ids) s = is_error (cancel_current r ids s).0
raises (verdict r i) s = is_error (complete_from_verifier r i s).0
raises (halt r i) s = is_error (complete_from_manager_stop r i s).0
