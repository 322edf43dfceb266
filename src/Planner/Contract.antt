-- ===== src/Planner/Contract.antt =====
-- The validators that src/fh_agent/planner/planner_output.py runs on a model's answer before its fields are read.
-- A raised ValueError is a rejection with the paths that its message joins.
pub mod Safe
mod Tests
use autonomous_game_agent.Prelude.{String, List, [], ◌∷◌, Option, none, some}
use autonomous_game_agent.Planner.Json.{Json}
use autonomous_game_agent.Planner.Scan.{find_direct_control_violations}
use autonomous_game_agent.Planner.Hidden.{find_hidden_state_term_violations}

pub data Rejection : Type 0 where
  direct_controls hidden_state_terms : List String → Rejection

-- `if violations: raise`, and what follows it
unfoldable pub raise_if :
    (List String → Rejection) → List String → Option Rejection → Option Rejection
raise_if because [] rest = rest
raise_if because (path ∷ paths) rest = some (because (path ∷ paths))

-- The planner's output: its rejection, or none where the data is passed on.
unfoldable pub reject_direct_control_plans : Json → Option Rejection
unfolding raise_if
reject_direct_control_plans answer =
    raise_if direct_controls (find_direct_control_violations answer "") none

-- The post-mortem output, in the same way.
unfoldable pub reject_unsafe_content : (String → String) → Json → Option Rejection
unfolding raise_if
reject_unsafe_content lower answer =
    raise_if direct_controls (find_direct_control_violations answer "")
      (raise_if hidden_state_terms (find_hidden_state_term_violations lower answer "") none)
