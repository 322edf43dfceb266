-- ===== src/Manager/TaskExecutor.antt =====
-- src/fh_agent/manager/task_executor.py: one attempt at the running task. The catalogs are the two lookups
-- that the executor makes of them; the run of the skill is that of `SkillRunner`.
pub mod Success
mod Tests
use autonomous_game_agent.Prelude.{
  ℕ, String, Bool, true, false, not, Option, none, some, if◌then◌else◌, str_eq,
}
use autonomous_game_agent.Game.Call.{Call, returns, raises}
use autonomous_game_agent.Manager.TargetRef.{SkillName, GroundedTarget, skill_text}
use autonomous_game_agent.Manager.Task.{TaskSpec}
use autonomous_game_agent.Manager.Events.{TaskCompletionEvent}
use autonomous_game_agent.Manager.EventLog.{Log}
use autonomous_game_agent.Manager.Scheduler.{ScheduledTask}
use autonomous_game_agent.Manager.SkillContract.{RunnableSkill}
use autonomous_game_agent.Manager.SkillRunner.Runtime.{Runtime, Verifier}
use autonomous_game_agent.Manager.SkillRunner.Results.{SkillRunResult}
use autonomous_game_agent.Manager.SkillRunner.Locals.{Outcome}
use autonomous_game_agent.Manager.SkillRunner.Run
use autonomous_game_agent.Manager.Orchestrator.{
  Orchestrator, OrchestratorError, EventIds, Reply, reply, failure, complete_from_skill_run,
}

pub record TaskExecutionResult : Type 0 where
  pub task_id : String
  pub skill_run_result : SkillRunResult
  pub completion_event : Option TaskCompletionEvent

pub data ExecutionError : Type 0 where
  no_running_task unknown_skill contract_mismatch no_verifier run_raised : ExecutionError
  not_completed : OrchestratorError → ExecutionError

pub data Attempt : Type 0 where
  attempted : TaskExecutionResult → Attempt
  refused : ExecutionError → Attempt

-- What an attempt answers and leaves behind.
pub record Execution (W : Type 0) : Type 0 where
  pub answer : Attempt
  pub orchestrator : Orchestrator
  pub world : W
  pub log : Log

module _ {W : Type 0} (rt : Runtime W) (fresh : ℕ → String) (logging : Bool)
    (skill_for : SkillName → Option GroundedTarget → Call RunnableSkill)
    (verifier_for : SkillName → Option GroundedTarget → Call Verifier) where
  abbrev pub refuse : ExecutionError → Orchestrator → W → Log → Execution W
  refuse x o w log = record { answer = refused x; orchestrator = o; world = w; log = log }

  -- the completion, after the run
  unfoldable pub complete :
      EventIds → String → Call SkillRunResult → Orchestrator → W → Log → Execution W
  complete ids task_id raises o w log = refuse run_raised o w log
  complete ids task_id (returns r) o w log =
      let (answer, o') = complete_from_skill_run ids r task_id o in
      elim answer [
        | failure x ↦ refuse (not_completed x) o' w log
        | reply e ↦ record {
          answer =
              attempted (record { task_id = task_id; skill_run_result = r; completion_event = e });
          orchestrator = o';
          world = w;
          log = log;
        }
      ]

  -- the run of a skill that was found, with its verifier
  unfoldable pub attempt :
      EventIds → TaskSpec → RunnableSkill → Call Verifier → Orchestrator → W → Log → Execution W
  unfolding complete
  attempt ids spec skill verifier o w log =
      if not (str_eq skill.contract.skill_name (skill_text spec.selected_skill))
      then refuse contract_mismatch o w log
      else elim verifier [
        | raises ↦ refuse no_verifier o w log
        | returns v ↦
            let outcome = Run.run rt fresh logging skill v w log in
            complete ids spec.task_id outcome.answer o outcome.world outcome.log
      ]

  unfoldable pub attempt_task :
      EventIds → Option ScheduledTask → Orchestrator → W → Log → Execution W
  unfolding attempt
  attempt_task ids none o w log = refuse no_running_task o w log
  attempt_task ids (some current) o w log =
      let spec = current.task_spec in
      elim (skill_for spec.selected_skill spec.target) [
        | raises ↦ refuse unknown_skill o w log
        | returns skill ↦
            attempt ids spec skill (verifier_for spec.selected_skill spec.target) o w log
      ]

  unfoldable pub execute_current_task : EventIds → Orchestrator → W → Log → Execution W
  unfolding attempt_task
  execute_current_task ids o w log = attempt_task ids o.scheduler.current_task o w log
