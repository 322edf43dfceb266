-- ===== src/Game/InputExecutor/Trace.antt =====
-- Sequences of calls on one `InputExecutor`.
use autonomous_game_agent.Prelude.{
  Bool, true, false, Option, none, some, List, [], ◌∷◌, ◌++◌, ◌≡◌, arith, if◌then◌else◌, refl, ◌∙◌,
  ◌⊎◌, inl, inr, Bool-cases,
}
use autonomous_game_agent.Body.Actions.{PrimitiveAction}
use autonomous_game_agent.Observation.{ActionResult}
use autonomous_game_agent.Game.Call.{Call, returns, raises, Call-cases}
use autonomous_game_agent.Game.InputExecutor.{
  Answers, Executor, is_rate_limited, execute, emergency_stop_is_triggered, enable_emergency_stop,
  clear_emergency_stop,
}
use autonomous_game_agent.Game.InputExecutor.Gates.{execute_sends_through_gates, execute_frame}

pub data Command (T : Type 0) : Type 0 where
  act : Answers T → PrimitiveAction → Command T
  enable clear : Command T

-- The time of a call that answered "executed".
abbrev pub stamp : {T : Type 0} → Call T → Call ActionResult → List T
stamp (returns t) (returns r) = if r.executed then t ∷ [] else []
stamp (returns t) raises = []
stamp raises c = []

module _ {T : Type 0} (sub : T → T → T) (lt : T → T → Bool) where
  unfoldable pub step : Command T → Executor T → Executor T
  step (act r a) e = (execute sub lt r a e).1
  step enable e = enable_emergency_stop e
  step clear e = clear_emergency_stop e

  unfoldable pub run : List (Command T) → Executor T → Executor T
  unfolding step
  run [] e = e
  run (c ∷ cs) e = run cs (step c e)

  stamps : Command T → Executor T → List T
  stamps (act r a) e = stamp r.now (execute sub lt r a e).0
  stamps enable e = []
  stamps clear e = []

  -- The times of the executions in a sequence of calls.
  unfoldable pub executions : List (Command T) → Executor T → List T
  unfolding stamps step
  executions [] e = []
  executions (c ∷ cs) e = stamps c e ++ executions cs (step c e)

  abbrev Apart : T → Option T → T → Type 0
  Apart min none t = Unit
  Apart min (some s) t = lt (sub t s) min ≡ false

  -- No two times that follow one another are closer than `min`.
  abbrev pub Spaced : T → Option T → List T → Type 0
  Spaced min last [] = Unit
  Spaced min last (t ∷ ts) = Apart min last t × Spaced min (some t) ts

  not_limited :
      (min t : T) (last : Option T)
      → elim last [ none ↦ false | some l ↦ lt (sub t l) min ] ≡ false
      → Apart min last t
  not_limited min t none h = tt
  not_limited min t (some l) h = h

  -- A call adds no time and keeps the last one, or it adds its own, which is far enough from the last.
  abbrev Stamped : Answers T → PrimitiveAction → Executor T → Type 0
  Stamped r a e =
      ((stamp r.now (execute sub lt r a e).0 ≡ [])
        × ((execute sub lt r a e).1.last_execution ≡ e.last_execution))
      ⊎ ((t : T) × (stamp r.now (execute sub lt r a e).0 ≡ t ∷ [])
          × ((execute sub lt r a e).1.last_execution ≡ some t)
          × Apart e.min_interval e.last_execution t)

  execute-Stamped_at :
      (r : Answers T) (a : PrimitiveAction) (e : Executor T) (t : T)
      → r.now ≡ returns t
      → Stamped r a e
  unfolding execute
  execute-Stamped_at r a e t now = elim (Bool-cases (emergency_stop_is_triggered r e)) [
    | inl stop ↦ inl (ground arith, ground arith)
    | inr go ↦ elim (Call-cases r.focused) [
      | inl f ↦ inl (ground arith, ground arith)
      | inr (false, f) ↦ inl (ground arith, ground arith)
      | inr (true, f) ↦ elim (Bool-cases (is_rate_limited sub lt t e)) [
        | inl limited ↦ inl (ground arith, ground arith)
        | inr free ↦ elim (Call-cases r.sent) [
          | inl s ↦ inl (ground arith, ground arith)
          | inr (u, s) ↦
              inr
                (t, ground arith, ground arith, not_limited e.min_interval t e.last_execution free)
        ]
      ]
    ]
  ]

  execute-Stamped : (r : Answers T) (a : PrimitiveAction) (e : Executor T) → Stamped r a e
  unfolding execute
  execute-Stamped r a e = elim (Call-cases r.now) [
    | inl raised ↦ inl (ground arith, ground arith)
    | inr (t, now) ↦ execute-Stamped_at r a e t now
  ]

  execute_stamp :
      (r : Answers T) (a : PrimitiveAction) (e : Executor T) (rest : List T)
      → Spaced e.min_interval (execute sub lt r a e).1.last_execution rest
      → Spaced e.min_interval e.last_execution (stamp r.now (execute sub lt r a e).0 ++ rest)
  execute_stamp r a e rest h = elim (execute-Stamped r a e) [
    | inl (none_added, same) ↦ rw none_added (rw same at h)
    | inr (t, added, last, far) ↦ rw added (far, rw last at h)
  ]

  step_min : (c : Command T) (e : Executor T) → (step c e).min_interval ≡ e.min_interval
  unfolding step enable_emergency_stop clear_emergency_stop
  step_min (act r a) e = (execute_frame sub lt r a e).0
  step_min enable e = refl
  step_min clear e = refl

  step_stamp :
      (c : Command T) (e : Executor T) (rest : List T)
      → Spaced e.min_interval (step c e).last_execution rest
      → Spaced e.min_interval e.last_execution (stamps c e ++ rest)
  unfolding step stamps enable_emergency_stop clear_emergency_stop
  step_stamp (act r a) e rest h = execute_stamp r a e rest h
  step_stamp enable e rest h = h
  step_stamp clear e rest h = h

  -- In any sequence of calls, from any state, two executions that follow one another, and the first
  -- one and the last before the sequence, are at least the minimal interval apart.
  pub executions-Spaced :
      (cs : List (Command T)) (e : Executor T)
      → Spaced e.min_interval e.last_execution (executions cs e)
  unfolding executions
  executions-Spaced [] e = tt
  executions-Spaced (c ∷ cs) e =
      step_stamp c e (executions cs (step c e))
        (rw (step_min c e) at (executions-Spaced cs (step c e)))

  -- Nothing in the sequence lifts the emergency stop.
  abbrev pub NoClear : List (Command T) → Type 0
  NoClear [] = Unit
  NoClear (act r a ∷ cs) = NoClear cs
  NoClear (enable ∷ cs) = NoClear cs
  NoClear (clear ∷ cs) = ⊥

  stopped_act :
      (r : Answers T) (a : PrimitiveAction) (e : Executor T)
      → e.emergency_stop_enabled ≡ true
      → (execute sub lt r a e).1.calls ≡ e.calls
  stopped_act r a e h = ground (arith, execute_sends_through_gates sub lt r a e)

  -- After the emergency stop is enabled, and until it is cleared, no call reaches the backend.
  pub emergency_stop_silences :
      (cs : List (Command T)) (e : Executor T)
      → NoClear cs
      → e.emergency_stop_enabled ≡ true
      → (run cs e).calls ≡ e.calls
  unfolding run enable_emergency_stop
  emergency_stop_silences [] e q h = refl
  emergency_stop_silences (act r a ∷ cs) e q h =
      emergency_stop_silences cs (execute sub lt r a e).1 q ((execute_frame sub lt r a e).2 ∙ h)
      ∙ stopped_act r a e h
  emergency_stop_silences (enable ∷ cs) e q h =
      emergency_stop_silences cs (enable_emergency_stop e) q refl
  emergency_stop_silences (clear ∷ cs) e q h = absurd q
