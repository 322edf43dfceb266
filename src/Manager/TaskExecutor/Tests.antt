-- ===== src/Manager/TaskExecutor/Tests.antt =====
-- The theorem on attempts, at the running dialogue task.
use autonomous_game_agent.Prelude.{ℕ, ◌+◌, ◌-◌, true, Option, some, [], ltb}
use autonomous_game_agent.Prelude.Int.{ℤ, abs}
use autonomous_game_agent.Game.Call.{Call}
use autonomous_game_agent.Manager.TargetRef.{SkillName, GroundedTarget}
use autonomous_game_agent.Manager.SkillContract.{RunnableSkill}
use autonomous_game_agent.Manager.SkillRunner.Runtime.{Verifier}
use autonomous_game_agent.Manager.SkillRunner.Wired.{wired}
use autonomous_game_agent.Manager.Catalog.{get, default_skill_factories, verifier_for}
use autonomous_game_agent.Manager.TaskExecutor.{execute_current_task}
use autonomous_game_agent.Manager.TaskExecutor.Success.{
  AttemptVerified, executed_success_is_verified,
}
use autonomous_game_agent.Samples.{manager, running_task, ids, calm, dialogue_wiring, fresh_id}

abbrev minus : ℕ → ℕ → ℕ
minus a b = a - b

abbrev taxicab : ℤ → ℤ → ℕ
taxicab x y = abs x + abs y

abbrev skills : SkillName → Option GroundedTarget → Call RunnableSkill
skills name task = get name task default_skill_factories

abbrev verifiers : SkillName → Option GroundedTarget → Call Verifier
verifiers name task = verifier_for taxicab ltb 4 name task

executed_success_is_verified_example :
    AttemptVerified verifiers
      (some running_task)
      (execute_current_task
        (wired minus ltb calm)
        fresh_id
        true
        skills
        verifiers
        ids
        manager
        dialogue_wiring
        []).answer
executed_success_is_verified_example =
    executed_success_is_verified (wired minus ltb calm) fresh_id true skills verifiers ids manager
      dialogue_wiring []
