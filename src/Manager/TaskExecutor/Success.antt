-- ===== src/Manager/TaskExecutor/Success.antt =====
-- What an attempt that succeeds rests on.
use mathlib.Core.Path.{subst}
use autonomous_game_agent.Prelude.{
  ℕ, String, Bool, not, Option, none, some, ◌≡◌, refl, sym, ◌∙◌, ap, ◌⊎◌, inl, inr, arith, if_holds,
  str_eq,
}
use autonomous_game_agent.Game.Call.{Call, returns, raises}
use autonomous_game_agent.Observation.{Observation}
use autonomous_game_agent.Verifier.Schemas.{VerifierStatus, VerifierResult, FailureKind}
use autonomous_game_agent.Manager.TargetRef.{SkillName, GroundedTarget, skill_text}
use autonomous_game_agent.Manager.Events.{TaskCompletionEvent, event_of}
use autonomous_game_agent.Manager.EventLog.{Log}
use autonomous_game_agent.Manager.Scheduler.{TaskStatus, TaskCompletion, ScheduledTask, stop_status}
use autonomous_game_agent.Manager.SkillContract.{RunnableSkill}
use autonomous_game_agent.Manager.SkillRunner.Runtime.{Runtime, Verifier}
use autonomous_game_agent.Manager.SkillRunner.Results.{SkillRunResult}
use autonomous_game_agent.Manager.SkillRunner.Run
use autonomous_game_agent.Manager.SkillRunner.Sound.{Judged}
use autonomous_game_agent.Manager.SkillRunner.Bounds.{SoundWithin, run_claims_only_verified_success}
use autonomous_game_agent.Manager.Orchestrator.{
  Orchestrator, EventIds, Reply, reply, failure, complete_from_skill_run,
}
use autonomous_game_agent.Manager.Orchestrator.Authority.{
  Closed, IsBased, IsStopped, IsJudged, completion_rests_on_authority,
}
use autonomous_game_agent.Manager.TaskExecutor.{
  ExecutionError, Attempt, attempted, refused, Execution, refuse, complete, attempt, attempt_task,
  execute_current_task,
}

-- The event of a success of `task`: the verifier that the catalog has for the task answered success to two
-- observations, and the event carries that verdict and its evidence.
pub record IsVerifiedSuccess (verifier : Call Verifier) (task : ScheduledTask)
    (e : TaskCompletionEvent) : Type 0 where
  pub judge : Verifier
  pub chosen : verifier ≡ returns judge
  pub before : Observation
  pub after : Observation
  pub success : (judge before after).status ≡ VerifierStatus.success
  pub carried : e.verifier_result ≡ some (judge before after)
  pub evidence : e.completion_evidence_ids ≡ (judge before after).evidence_ids
  pub task_id : e.task_id ≡ task.task_spec.task_id

stop_status-fails : (k : FailureKind) → stop_status k ≡ TaskStatus.succeeded → ⊥
unfolding stop_status
stop_status-fails k h = ground arith

-- An event of success, if there is one, is a verified success of the running task.
abbrev pub Verified :
    (SkillName → Option GroundedTarget → Call Verifier)
    → Option ScheduledTask
    → Option TaskCompletionEvent
    → Type 0
Verified verifier_for current none = Unit
Verified verifier_for current (some e) =
    e.status ≡ TaskStatus.succeeded
    → (task : ScheduledTask) × (current ≡ some task)
      × IsVerifiedSuccess (verifier_for task.task_spec.selected_skill task.task_spec.target) task e

abbrev pub AttemptVerified :
    (SkillName → Option GroundedTarget → Call Verifier) → Option ScheduledTask → Attempt → Type 0
AttemptVerified verifier_for current (refused x) = Unit
AttemptVerified verifier_for current (attempted a) =
    Verified verifier_for current a.completion_event

-- a completion of `task` on the word of a run whose verdict is `judge`'s
based-IsVerifiedSuccess :
    (verifier : Call Verifier) (judge : Verifier) (task : ScheduledTask) (r : SkillRunResult)
    (ids : EventIds) (c : TaskCompletion)
    → verifier ≡ returns judge
    → Judged judge r.verifier_result
    → IsBased r (some task) c
    → c.status ≡ TaskStatus.succeeded
    → IsVerifiedSuccess verifier task (event_of c ids.run_id ids.event_id ids.created_at)
based-IsVerifiedSuccess verifier judge task r ids c chosen judged based s = at based.word
  where
    same : based.task ≡ task
    same = (let k : some task ≡ some based.task = based.running in cc)

    at :
        IsStopped r c ⊎ IsJudged r c
        → IsVerifiedSuccess verifier task (event_of c ids.run_id ids.event_id ids.created_at)
    at (inl stopped) = absurd (stop_status-fails stopped.stop.failure_kind (sym stopped.status ∙ s))
    at (inr j) = by_status j.status
      where
        own : Judged judge (some j.verdict)
        own = subst (Judged judge) j.ran judged

        by_status :
            ((j.verdict.status ≡ VerifierStatus.success) × (c.status ≡ TaskStatus.succeeded))
              ⊎ ((j.verdict.status ≡ VerifierStatus.failure) × (c.status ≡ TaskStatus.failed))
            → IsVerifiedSuccess verifier task (event_of c ids.run_id ids.event_id ids.created_at)
        by_status (inr (f, k)) =
            absurd (let e : TaskStatus.failed ≡ TaskStatus.succeeded = sym k ∙ s in cc)
        by_status (inl (f, k)) = record {
          judge = judge;
          chosen = chosen;
          before = own.0;
          after = own.1;
          success = ap (λ (x : VerifierResult). x.status) (sym own.2) ∙ f;
          carried = j.told ∙ ap (λ x. some x) own.2;
          evidence = j.evidence ∙ ap (λ (x : VerifierResult). x.evidence_ids) own.2;
          task_id = based.task_id ∙ ap (λ (x : ScheduledTask). x.task_spec.task_id) same;
        }

module _ {W : Type 0} (rt : Runtime W) (fresh : ℕ → String) (logging : Bool)
    (skill_for : SkillName → Option GroundedTarget → Call RunnableSkill)
    (verifier_for : SkillName → Option GroundedTarget → Call Verifier) where
  complete-Verified :
      (ids : EventIds) (task : ScheduledTask) (judge : Verifier) (n : ℕ) (run : Call SkillRunResult)
      (o : Orchestrator) (w : W) (log : Log)
      → verifier_for task.task_spec.selected_skill task.task_spec.target ≡ returns judge
      → SoundWithin judge n run
      → o.scheduler.current_task ≡ some task
      → AttemptVerified verifier_for
          (some task)
          (complete rt fresh logging skill_for verifier_for ids task.task_spec.task_id run o w
            log).answer
  unfolding complete
  complete-Verified ids task judge n raises o w log chosen sound running = tt
  complete-Verified ids task judge n (returns r) o w log chosen sound running =
      at (complete_from_skill_run ids r task.task_spec.task_id o).0
        (completion_rests_on_authority ids r task.task_spec.task_id o)
    where
      o' : Orchestrator
      o' = (complete_from_skill_run ids r task.task_spec.task_id o).1

      at :
          (t : Reply (Option TaskCompletionEvent))
          → Closed ids r task.task_spec.task_id o.scheduler t
          → AttemptVerified verifier_for
              (some task)
              (elim t as (λ _. Execution W) [
                | failure x ↦
                    refuse rt fresh logging skill_for verifier_for
                      (ExecutionError.not_completed x)
                      o'
                      w
                      log
                | reply e ↦ record {
                  answer = attempted (record {
                    task_id = task.task_spec.task_id;
                    skill_run_result = r;
                    completion_event = e;
                  });
                  orchestrator = o';
                  world = w;
                  log = log;
                }
              ]).answer
      at (failure x) closed = tt
      at (reply none) closed = tt
      at (reply (some e)) (c, told, based, named) = λ s. (
        task,
        refl,
        subst
            (IsVerifiedSuccess (verifier_for task.task_spec.selected_skill task.task_spec.target)
              task)
            (sym told)
            (based-IsVerifiedSuccess
              (verifier_for task.task_spec.selected_skill task.task_spec.target) judge task r ids c
              chosen sound.judged (subst (λ x. IsBased r x c) running based)
              (ap (λ (x : TaskCompletionEvent). x.status) (sym told) ∙ s)),
      )

  attempt-Verified :
      (ids : EventIds) (task : ScheduledTask) (skill : RunnableSkill) (o : Orchestrator) (w : W)
      (log : Log)
      → o.scheduler.current_task ≡ some task
      → AttemptVerified verifier_for
          (some task)
          (attempt rt fresh logging skill_for verifier_for ids task.task_spec skill
            (verifier_for task.task_spec.selected_skill task.task_spec.target)
            o
            w
            log).answer
  unfolding attempt
  attempt-Verified ids task skill o w log running =
      if_holds (λ (x : Execution W). AttemptVerified verifier_for (some task) x.answer)
        (not (str_eq skill.contract.skill_name (skill_text task.task_spec.selected_skill)))
        (λ h. tt) (λ h. at (verifier_for task.task_spec.selected_skill task.task_spec.target) refl)
    where
      at :
          (v : Call Verifier)
          → verifier_for task.task_spec.selected_skill task.task_spec.target ≡ v
          → AttemptVerified verifier_for
              (some task)
              (elim v as (λ _. Execution W) [
                | raises ↦
                    refuse rt fresh logging skill_for verifier_for ExecutionError.no_verifier o w
                      log
                | returns judge ↦
                    let outcome = Run.run rt fresh logging skill judge w log in
                    complete rt fresh logging skill_for verifier_for ids task.task_spec.task_id
                      outcome.answer o outcome.world outcome.log
              ]).answer
      at raises h = tt
      at (returns judge) h =
          complete-Verified ids task judge skill.contract.max_steps
            (Run.run rt fresh logging skill judge w log).answer o
            (Run.run rt fresh logging skill judge w log).world
            (Run.run rt fresh logging skill judge w log).log h
            (run_claims_only_verified_success rt fresh logging skill judge w log) running

  attempt_task-Verified :
      (ids : EventIds) (current : Option ScheduledTask) (o : Orchestrator) (w : W) (log : Log)
      → o.scheduler.current_task ≡ current
      → AttemptVerified verifier_for current
          (attempt_task rt fresh logging skill_for verifier_for ids current o w log).answer
  unfolding attempt_task
  attempt_task-Verified ids none o w log h = tt
  attempt_task-Verified ids (some task) o w log h =
      at (skill_for task.task_spec.selected_skill task.task_spec.target)
    where
      at :
          (t : Call RunnableSkill)
          → AttemptVerified verifier_for
              (some task)
              (elim t as (λ _. Execution W) [
                | raises ↦
                    refuse rt fresh logging skill_for verifier_for ExecutionError.unknown_skill o w
                      log
                | returns skill ↦
                    attempt rt fresh logging skill_for verifier_for ids task.task_spec skill
                      (verifier_for task.task_spec.selected_skill task.task_spec.target)
                      o
                      w
                      log
              ]).answer
      at raises = tt
      at (returns skill) = attempt-Verified ids task skill o w log h

  -- Whatever skill, screen and guarded input an attempt meets: an event of success that it returns is an
  -- event of the task that was running, and the verifier that the catalog has for that task answered success
  -- to two observations; the event carries this verdict and its evidence.
  pub executed_success_is_verified :
      (ids : EventIds) (o : Orchestrator) (w : W) (log : Log)
      → AttemptVerified verifier_for o.scheduler.current_task
          (execute_current_task rt fresh logging skill_for verifier_for ids o w log).answer
  unfolding execute_current_task
  executed_success_is_verified ids o w log =
      attempt_task-Verified ids o.scheduler.current_task o w log refl
