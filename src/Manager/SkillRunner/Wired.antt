-- ===== src/Manager/SkillRunner/Wired.antt =====
-- A run on the parts of the repository: the observation source of src/fh_agent/observation/source.py that
-- is backed by a sequence, and the guarded input executor.
use autonomous_game_agent.Prelude.{
  ℕ, ◌+◌, Bool, true, false, List, [], ◌∷◌, ◌++◌, ◌≡◌, refl, ◌⊎◌, inl, inr, String, if◌then◌else◌,
}
use autonomous_game_agent.Body.Actions.{PrimitiveAction}
use autonomous_game_agent.Game.Call.{Call}
use autonomous_game_agent.Game.InputExecutor.{Answers, Executor, execute}
use autonomous_game_agent.Game.InputExecutor.Gates.{execute_sends_through_gates, gates_open}
use autonomous_game_agent.Observation.{Observation, ActionResult}
use autonomous_game_agent.Manager.EventLog.{Log}
use autonomous_game_agent.Manager.SkillContract.{RunnableSkill}
use autonomous_game_agent.Manager.SkillRunner.Runtime.{
  Runtime, IsGuarded, Sight, seen, exhausted, Verifier,
}
use autonomous_game_agent.Manager.SkillRunner.Run
use autonomous_game_agent.Manager.SkillRunner.Safety.{run_sends_only_allowed}
use autonomous_game_agent.Manager.SkillRunner.Growth.{Grew}

-- The observations that are left, the executor, and how many calls of it there were.
pub record Wiring (T : Type 0) : Type 0 where
  pub remaining : List Observation
  pub executor : Executor T
  pub calls_made : ℕ

-- `SequenceObservationSource.observe`
abbrev sequence_observe : {T : Type 0} → List Observation → Wiring T → Sight × Wiring T
sequence_observe [] w = (exhausted, w)
sequence_observe (o ∷ rest) w = (seen o, record w { remaining = rest })

-- `answers n` is what the outside answers to the call after `n` others.
module _ {T : Type 0} (sub : T → T → T) (lt : T → T → Bool) (answers : ℕ → Answers T) where
  unfoldable pub observe : Wiring T → Sight × Wiring T
  observe w = sequence_observe w.remaining w

  unfoldable pub guarded_execute : PrimitiveAction → Wiring T → Call ActionResult × Wiring T
  guarded_execute a w =
      let (answer, e) = execute sub lt (answers w.calls_made) a w.executor in
      (answer, record w { executor = e; calls_made = w.calls_made + 1 })

  unfoldable pub wired : Runtime (Wiring T)
  unfolding observe guarded_execute
  wired = record { observe = observe; execute = guarded_execute }

  abbrev pub sent : Wiring T → List PrimitiveAction
  sent w = w.executor.calls

  observe-calls : (w : Wiring T) → sent (observe w).1 ≡ sent w
  unfolding observe
  observe-calls w = at w.remaining
    where
      at : (os : List Observation) → sent (sequence_observe os w).1 ≡ sent w
      at [] = refl
      at (o ∷ os) = refl

  own_or_nothing :
      (a : PrimitiveAction) (b : Bool) (before after : List PrimitiveAction)
      → after ≡ (if b then before ++ a ∷ [] else before)
      → (after ≡ before) ⊎ (after ≡ before ++ a ∷ [])
  own_or_nothing a true before after h = inr h
  own_or_nothing a false before after h = inl h

  -- The executor and the sequence keep what the runner relies on.
  pub wired-IsGuarded : IsGuarded wired sent
  unfolding guarded_execute wired
  wired-IsGuarded = record {
    observe_sends_nothing = observe-calls;
    execute_sends_own = λ a w.
        own_or_nothing a (gates_open sub lt (answers w.calls_made) w.executor) w.executor.calls _
          (execute_sends_through_gates sub lt (answers w.calls_made) a w.executor);
  }

  -- A run of a skill on the sequence source and the guarded executor, whatever clock, stop check, window
  -- and backend answer, adds to the backend's inputs only actions that the contract allows, and at most
  -- `max_steps` of them.
  pub wired-run_sends_only_allowed :
      (fresh : ℕ → String) (logging : Bool) (skill : RunnableSkill) (verifier : Verifier)
      (w : Wiring T) (log : Log)
      → Grew skill.contract.allowed_actions skill.contract.max_steps
          (sent w)
          (sent (Run.run wired fresh logging skill verifier w log).world)
  unfolding wired
  wired-run_sends_only_allowed fresh logging skill verifier w log =
      run_sends_only_allowed wired fresh logging skill verifier sent wired-IsGuarded w log
