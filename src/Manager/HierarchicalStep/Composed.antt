-- ===== src/Manager/HierarchicalStep/Composed.antt =====
-- What a hierarchical step composes.
use mathlib.Core.Path.{subst}
use autonomous_game_agent.Prelude.{
  ℕ, String, Bool, true, false, not, Option, none, some, List, [], ◌∷◌, ◌++◌, ◌≡◌, refl, ◌∙◌, ap,
  arith, if_holds, ◌||◌, str_eq, eq_refl,
}
use autonomous_game_agent.Game.Call.{Call}
use autonomous_game_agent.Observation.{Observation}
use autonomous_game_agent.Planner.Json.{Json}
use autonomous_game_agent.Planner.Output.{PlannerOutput}
use autonomous_game_agent.Manager.Capabilities.{SkillCapabilityContract}
use autonomous_game_agent.Manager.Task.{TaskSpec}
use autonomous_game_agent.Manager.TargetRef.{SkillName, GroundedTarget, TargetType, GroundingResult}
use autonomous_game_agent.Manager.EventLog.{Log}
use autonomous_game_agent.Manager.Grounding.{GroundingRequest, GroundingPolicy, VisibleCandidate}
use autonomous_game_agent.Manager.Grounding
use autonomous_game_agent.Manager.Scheduler.{ScheduledTask, TaskStatus, Scheduler, scheduled}
use autonomous_game_agent.Manager.Scheduler
use autonomous_game_agent.Manager.SkillContract.{RunnableSkill}
use autonomous_game_agent.Manager.SkillRunner.Runtime.{
  Runtime, Verifier, Sight, seen, exhausted, broken,
}
use autonomous_game_agent.Manager.Orchestrator.{Orchestrator, EventIds, start_next}
use autonomous_game_agent.Manager.Intake.{
  SubmissionIds, Submission, submitted, not_submitted, GroundedCortexTaskSubmissionResult,
  plan_ground_and_submit,
}
use autonomous_game_agent.Manager.Intake.Queued.{Composed, IsComposed, submission-Composed}
use autonomous_game_agent.Manager.TaskExecutor.{
  Attempt, attempted, refused, Execution, execute_current_task,
}
use autonomous_game_agent.Manager.TaskExecutor.Success.{
  Verified, AttemptVerified, executed_success_is_verified,
}
use autonomous_game_agent.Manager.HierarchicalStep.{
  Primed, primed, HierarchicalTaskStepResult, StepAnswer, stepped, step_raised, not_idle,
  no_observation, not_started, submission_failed, execution_failed, Step, is_busy, is_running,
  step_of, attempt_started, start_submitted, submit_seen, run_once,
}
use autonomous_game_agent.Manager.HierarchicalStep.OnScreen.{
  IsOnScreen, fitting-IsOnScreen, running_of, start_alone,
}

module _ (lower : String → String) (fields_of : Json → Option PlannerOutput)
    (task_id_for : TaskSpec → String) (capabilities : SkillCapabilityContract) {M : Type 0}
    (plan_next_goal : Observation → M → List SkillName → Call PlannerOutput)
    (target_id_for : TargetType → VisibleCandidate → List String → String)
    (policy : GroundingPolicy) {W : Type 0} (rt : Runtime W) (fresh : ℕ → String) (logging : Bool)
    (skill_for : SkillName → Option GroundedTarget → Call RunnableSkill)
    (verifier_for : SkillName → Option GroundedTarget → Call Verifier) (names : SubmissionIds)
    (ids : EventIds) (memory : M) (o : Orchestrator) (w : W) (log : Log) where
  abbrev service : GroundingRequest → Observation → Call GroundingResult
  service = Grounding.ground target_id_for policy

  -- The records of a step that returns.
  pub record IsStep (r : HierarchicalTaskStepResult) : Type 0 where
    pub idle : is_busy o.scheduler ≡ false
    pub observed : (rt.observe w).0 ≡ seen r.planning_observation
    pub queued : Orchestrator
    pub composed :
        IsComposed lower fields_of task_id_for capabilities plan_next_goal
          (Grounding.ground target_id_for policy)
          r.planning_observation
          memory
          names
          o
          r.submission_result
          queued
    pub started : r.started_task ≡ running_of r.submission_result.scheduled_task
    pub on_screen : IsOnScreen policy r.planning_observation r.started_task.task_spec.target
    pub verified : Verified verifier_for (some r.started_task) r.execution_result.completion_event

  -- What a step answers, and the orchestrator that it leaves behind.
  abbrev pub Promise : StepAnswer → Orchestrator → Type 0
  Promise (stepped r) o' = IsStep r
  Promise (step_raised not_idle) o' = (is_busy o.scheduler ≡ true) × (o' ≡ o)
  Promise (step_raised no_observation) o' = o' ≡ o
  Promise (step_raised (submission_failed x)) o' = o' ≡ o
  Promise (step_raised not_started) o' = ⊥
  Promise (step_raised (execution_failed x)) o' = is_busy o.scheduler ≡ false

  abbrev Kept : Step W → Type 0
  Kept s = Promise s.answer s.orchestrator

  module _ (idle : is_busy o.scheduler ≡ false) (observation : Observation)
      (observed : (rt.observe w).0 ≡ seen observation) (r : GroundedCortexTaskSubmissionResult)
      (queued : Orchestrator)
      (composed : IsComposed lower fields_of task_id_for capabilities plan_next_goal
        (Grounding.ground target_id_for policy)
        observation
        memory
        names
        o
        r
        queued) where
    attempted-Kept :
        (e : Execution (Primed W)) (answer : Attempt)
        → AttemptVerified verifier_for (some (running_of r.scheduled_task)) answer
        → Kept (
            step_of lower fields_of task_id_for capabilities plan_next_goal service rt fresh logging
              skill_for verifier_for observation r
              (running_of r.scheduled_task)
              e
              answer)
    attempted-Kept e (refused x) v = idle
    attempted-Kept e (attempted a) v = record {
      idle = idle;
      observed = observed;
      queued = queued;
      composed = composed;
      started = refl;
      on_screen =
          fitting-IsOnScreen lower fields_of task_id_for capabilities plan_next_goal target_id_for
            policy observation r.grounding_request r.grounding_result
            r.scheduled_task.task_spec.selected_skill r.scheduled_task.task_spec.target
            composed.grounded composed.task.task_of.target;
      verified = v;
    }

    run-Kept :
        (o' : Orchestrator) (w' : W)
        → o'.scheduler.current_task ≡ some (running_of r.scheduled_task)
        → Kept (
            attempt_started lower fields_of task_id_for capabilities plan_next_goal service rt fresh
              logging skill_for verifier_for ids observation r
              (some (running_of r.scheduled_task))
              o'
              w'
              log)
    unfolding attempt_started is_running
    run-Kept o' w' current =
        let task_id = r.scheduled_task.task_spec.task_id in
        let screen : Primed W = record { initial = some observation; remaining = w' } in
        let e =
          execute_current_task (primed rt) fresh logging skill_for verifier_for ids o' screen log in
        if_holds Kept (not true || not (str_eq task_id task_id))
          (λ h. absurd (ground (arith, eq_refl task_id)))
          (λ h. attempted-Kept e e.answer (
            subst (λ c. AttemptVerified verifier_for c e.answer) current
              (executed_success_is_verified (primed rt) fresh logging skill_for verifier_for ids o'
                screen log)))

    started-Kept :
        (started : Option ScheduledTask) (o' : Orchestrator) (w' : W)
        → started ≡ some (running_of r.scheduled_task)
        → o'.scheduler.current_task ≡ some (running_of r.scheduled_task)
        → Kept (
            attempt_started lower fields_of task_id_for capabilities plan_next_goal service rt fresh
              logging skill_for verifier_for ids observation r started o' w' log)
    started-Kept none o' w' e current = absurd (cc)
    started-Kept (some t) o' w' e current =
        let same : running_of r.scheduled_task ≡ t = (cc) in
        subst
          (λ x. Kept (
            attempt_started lower fields_of task_id_for capabilities plan_next_goal service rt fresh
              logging skill_for verifier_for ids observation r (some x) o' w' log))
          same (run-Kept o' w' current)

    submitted-Kept :
        (w' : W)
        → Kept (
            start_submitted lower fields_of task_id_for capabilities plan_next_goal service rt fresh
              logging skill_for verifier_for ids observation
              (submitted r)
              queued
              w'
              log)
    unfolding start_submitted start_next
    submitted-Kept w' =
        let alone = start_alone o.scheduler r.scheduled_task idle in
        let s : queued.scheduler
            ≡ record o.scheduler { queue = o.scheduler.queue ++ r.scheduled_task ∷ [] } =
          ap (λ (x : Orchestrator). x.scheduler) composed.task.queued in
        started-Kept (start_next queued).0 (start_next queued).1 w'
          (ap (λ x. (Scheduler.start_next x).0) s ∙ alone.0)
          (ap (λ x. (Scheduler.start_next x).1.current_task) s ∙ alone.1)

  seen-Kept :
      (idle : is_busy o.scheduler ≡ false) (sight : Sight) (w' : W)
      → (rt.observe w).0 ≡ sight
      → Kept (
          submit_seen lower fields_of task_id_for capabilities plan_next_goal service rt fresh
            logging skill_for verifier_for names ids memory sight o w' log)
  unfolding submit_seen
  seen-Kept idle exhausted w' h = refl
  seen-Kept idle broken w' h = refl
  seen-Kept idle (seen observation) w' h =
      at
        (plan_ground_and_submit lower fields_of task_id_for capabilities plan_next_goal service
          observation memory names o)
        (submission-Composed lower fields_of task_id_for capabilities plan_next_goal service
          observation memory names o)
    where
      at :
          (x : Submission GroundedCortexTaskSubmissionResult × Orchestrator)
          → Composed lower fields_of task_id_for capabilities plan_next_goal service observation
              memory names o x
          → Kept (
              start_submitted lower fields_of task_id_for capabilities plan_next_goal service rt
                fresh logging skill_for verifier_for ids observation x.0 x.1 w' log)
      at (not_submitted x, o') e = e
      at (submitted r, o') c = submitted-Kept idle observation h r o' c w'

  pub run_once-IsComposed :
      Promise
        (run_once lower fields_of task_id_for capabilities plan_next_goal
          (Grounding.ground target_id_for policy)
          rt
          fresh
          logging
          skill_for
          verifier_for
          names
          ids
          memory
          o
          w
          log).answer
        (run_once lower fields_of task_id_for capabilities plan_next_goal
          (Grounding.ground target_id_for policy)
          rt
          fresh
          logging
          skill_for
          verifier_for
          names
          ids
          memory
          o
          w
          log).orchestrator
  unfolding run_once
  run_once-IsComposed =
      if_holds Kept (is_busy o.scheduler) (λ busy. (busy, refl))
        (λ idle. seen-Kept idle (rt.observe w).0 (rt.observe w).1 refl)
