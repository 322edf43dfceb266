-- ===== src/Body/Skills/Tests.antt =====
-- The theorems on movement, at a walk of four steps.
use autonomous_game_agent.Prelude.{◌≡◌, refl}
use autonomous_game_agent.Prelude.Int.{pos, ◌-ℤ◌}
use autonomous_game_agent.Body.Skills.Approach.{steps_between, walk, walk_arrives}

walk_arrives_example : steps_between (walk 4 (pos 3, pos 4) (pos 6, pos 3)) (pos 6, pos 3) ≡ 0
unfolding steps_between ◌-ℤ◌
walk_arrives_example = walk_arrives 4 (pos 3, pos 4) (pos 6, pos 3) refl
