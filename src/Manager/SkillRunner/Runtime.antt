-- ===== src/Manager/SkillRunner/Runtime.antt =====
-- The boundaries of the skill runner: `ObservationSource.observe`, `InputExecutor.execute` and
-- `OutcomeVerifier.verify`.
use autonomous_game_agent.Prelude.{List, [], ◌∷◌, ◌++◌, ◌≡◌, ◌⊎◌}
use autonomous_game_agent.Body.Actions.{PrimitiveAction}
use autonomous_game_agent.Game.Call.{Call}
use autonomous_game_agent.Observation.{Observation, ActionResult}
use autonomous_game_agent.Verifier.Schemas.{VerifierResult}

-- how `observe()` ends; `broken` is any exception but `ObservationSourceExhausted`
pub data Sight : Type 0 where
  seen : Observation → Sight
  exhausted broken : Sight

pub record Runtime (W : Type 0) : Type 0 where
  pub observe : W → Sight × W
  pub execute : PrimitiveAction → W → Call ActionResult × W

-- What the runner relies on: `inputs` are the primitive inputs that went out so far. Looking sends
-- nothing; a call of `execute` sends its action or nothing.
pub record IsGuarded {W : Type 0} (rt : Runtime W) (inputs : W → List PrimitiveAction)
    : Type 0 where
  pub observe_sends_nothing : (w : W) → inputs (rt.observe w).1 ≡ inputs w
  pub execute_sends_own :
      (a : PrimitiveAction) (w : W)
      → (inputs (rt.execute a w).1 ≡ inputs w) ⊎ (inputs (rt.execute a w).1 ≡ inputs w ++ a ∷ [])

abbrev pub Verifier : Type 0
Verifier = Observation → Observation → VerifierResult
