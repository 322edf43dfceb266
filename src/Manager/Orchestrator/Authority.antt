-- ===== src/Manager/Orchestrator/Authority.antt =====
-- Whose word closes a task, in `complete_from_skill_run`.
use autonomous_game_agent.Prelude.{
  String, Option, none, some, arith, ◌≡◌, refl, ◌⊎◌, inl, inr, if_holds, eq_iff, last?,
}
use autonomous_game_agent.Verifier.Schemas.{
  VerifierResult, VerifierStatus, FailureKind, failure_kind_value,
}
use autonomous_game_agent.Manager.TargetRef.{skill_text}
use autonomous_game_agent.Manager.Task.{ManagerStopResult}
use autonomous_game_agent.Manager.Scheduler.{
  TaskStatus, TaskCompletion, ScheduledTask, Scheduler, Answer, Ending, ok, error, complete_task,
  completion_of, completion_accepted, completed, judge, complete_from_verifier,
  complete_from_manager_stop, verified, stopped, stop_status, on_current,
}
use autonomous_game_agent.Manager.SkillRunner.Results.{SkillRunResult}
use autonomous_game_agent.Manager.Events.{
  TaskCompletionEvent, task_completion_to_event, event_accepted, event_of,
}
use autonomous_game_agent.Manager.Orchestrator.{
  Orchestrator, OrchestratorError, invalid_event, Reply, reply, failure, EventIds, record_if_sink,
  publish, report, authority, record_id, mismatch, complete_from_skill_run,
}

-- The Manager stop `s` ended a task with completion `c`.
pub record IsStopped (r : SkillRunResult) (c : TaskCompletion) : Type 0 where
  pub stop : ManagerStopResult
  pub ran : r.manager_stop_result ≡ some stop
  pub status : c.status ≡ stop_status stop.failure_kind
  pub condition : c.condition ≡ failure_kind_value stop.failure_kind
  pub evidence : c.evidence_ids ≡ stop.evidence_ids
  pub told : c.manager_stop_result ≡ some stop
  pub no_verdict : c.verifier_result ≡ none

-- The verdict ended a task with completion `c`, and the run had no Manager stop.
pub record IsJudged (r : SkillRunResult) (c : TaskCompletion) : Type 0 where
  pub verdict : VerifierResult
  pub ran : r.verifier_result ≡ some verdict
  pub no_stop : r.manager_stop_result ≡ none
  pub status :
      ((verdict.status ≡ VerifierStatus.success) × (c.status ≡ TaskStatus.succeeded))
      ⊎ ((verdict.status ≡ VerifierStatus.failure) × (c.status ≡ TaskStatus.failed))
  pub evidence : c.evidence_ids ≡ verdict.evidence_ids
  pub told : c.verifier_result ≡ some verdict

-- The task that a completion closes, and on whose word.
pub record IsBased (r : SkillRunResult) (current : Option ScheduledTask) (c : TaskCompletion)
    : Type 0 where
  pub task : ScheduledTask
  pub running : current ≡ some task
  pub spec : c.task_spec ≡ task.task_spec
  pub task_id : c.task_id ≡ task.task_spec.task_id
  pub word : IsStopped r c ⊎ IsJudged r c

abbrev Based : SkillRunResult → Scheduler → Answer (Option TaskCompletion) × Scheduler → Type 0
Based r s (ok (some c), s') = IsBased r s.current_task c
Based r s (ok none, s') = Unit
Based r s (error x, s') = Unit

complete_task-Based :
    (r : SkillRunResult) (t : ScheduledTask) (e : Ending) (s : Scheduler)
    → s.current_task ≡ some t
    → IsStopped r (completion_of t e) ⊎ IsJudged r (completion_of t e)
    → Based r s (completed (complete_task t e s))
unfolding complete_task
complete_task-Based r t e s h w =
    if_holds (λ x. Based r s (completed x)) (completion_accepted (completion_of t e))
      (λ k. record { task = t; running = h; spec = refl; task_id = refl; word = w }) (λ k. tt)

judge-Based :
    (r : SkillRunResult) (status : VerifierStatus) (kind : Option FailureKind) (v : VerifierResult)
    (i : Option String) (t : ScheduledTask) (s : Scheduler)
    → r.manager_stop_result ≡ none
    → r.verifier_result ≡ some v
    → v.status ≡ status
    → s.current_task ≡ some t
    → Based r s (judge status kind v i t s)
unfolding judge
judge-Based r VerifierStatus.success kind v i t s n h k at =
    complete_task-Based r t (verified TaskStatus.succeeded "success" v i) s at (
      inr (record {
        verdict = v;
        ran = h;
        no_stop = n;
        status = inl (k, refl);
        evidence = refl;
        told = refl;
      }))
judge-Based r VerifierStatus.progress kind v i t s n h k at = tt
judge-Based r VerifierStatus.abstain kind v i t s n h k at = tt
judge-Based r VerifierStatus.failure none v i t s n h k at = tt
judge-Based r VerifierStatus.failure (some f) v i t s n h k at =
    complete_task-Based r t (verified TaskStatus.failed (failure_kind_value f) v i) s at (
      inr (record {
        verdict = v;
        ran = h;
        no_stop = n;
        status = inr (k, refl);
        evidence = refl;
        told = refl;
      }))

on_current-Based :
    (r : SkillRunResult) (o : Option ScheduledTask)
    (f : ScheduledTask → Scheduler → Answer (Option TaskCompletion) × Scheduler) (s : Scheduler)
    → ((t : ScheduledTask) → o ≡ some t → Based r s (f t s))
    → Based r s (on_current o f s)
on_current-Based r none f s h = tt
on_current-Based r (some t) f s h = h t refl

on_current-completed-Based :
    (r : SkillRunResult) (o : Option ScheduledTask)
    (f : ScheduledTask → Scheduler → Answer TaskCompletion × Scheduler) (s : Scheduler)
    → ((t : ScheduledTask) → o ≡ some t → Based r s (completed (f t s)))
    → Based r s (completed (on_current o f s))
on_current-completed-Based r none f s h = tt
on_current-completed-Based r (some t) f s h = h t refl

authority-Based :
    (stop : Option ManagerStopResult) (verdict : Option VerifierResult) (r : SkillRunResult)
    (s : Scheduler)
    → r.manager_stop_result ≡ stop
    → r.verifier_result ≡ verdict
    → Based r s (authority stop verdict r s)
unfolding authority complete_from_manager_stop complete_from_verifier
authority-Based none none r s h k = tt
authority-Based (some stop) verdict r s h k =
    on_current-completed-Based r s.current_task _ s (λ t at.
      complete_task-Based r t (stopped stop (record_id r.manager_stop_event_record)) s at (
        inl (record {
          stop = stop;
          ran = h;
          status = refl;
          condition = refl;
          evidence = refl;
          told = refl;
          no_verdict = refl;
        })))
authority-Based none (some v) r s h k = on_current-Based r s.current_task _ s (λ t at.
    judge-Based r v.status v.failure_kind v (record_id (last? r.verifier_event_records)) t s h k
      refl at)

-- The task that the caller names is the running one, and the run was a run of its skill.
abbrev pub IsNamed : SkillRunResult → String → Option ScheduledTask → Type 0
IsNamed r task_id none = ⊥
IsNamed r task_id (some t) =
    (task_id ≡ t.task_spec.task_id)
    × (r.skill_result.skill_name ≡ skill_text t.task_spec.selected_skill)

mismatch-IsNamed :
    (r : SkillRunResult) (i : String) (o : Option ScheduledTask)
    → mismatch r i o ≡ none
    → IsNamed r i o
unfolding mismatch
mismatch-IsNamed r i none h = cc
mismatch-IsNamed r i (some t) h = ground (
  arith,
  eq_iff i t.task_spec.task_id,
  eq_iff r.skill_result.skill_name (skill_text t.task_spec.selected_skill),
)

-- An event of a run of a skill: the caller named the running task and the run was of its skill, and a
-- completion of that task, of which the event tells, rests on the run's Manager stop or, without a stop,
-- on its verdict.
abbrev pub Closed :
    EventIds → SkillRunResult → String → Scheduler → Reply (Option TaskCompletionEvent) → Type 0
Closed ids r i s (failure x) = Unit
Closed ids r i s (reply none) = Unit
Closed ids r i s (reply (some e)) =
    (c : TaskCompletion) × (e ≡ event_of c ids.run_id ids.event_id ids.created_at)
    × IsBased r s.current_task c
    × IsNamed r i s.current_task

report-Closed :
    (ids : EventIds) (r : SkillRunResult) (i : String)
    (x : Answer (Option TaskCompletion) × Scheduler) (o : Orchestrator)
    → Based r o.scheduler x
    → IsNamed r i o.scheduler.current_task
    → Closed ids r i o.scheduler (report ids x o).0
unfolding report publish task_completion_to_event
report-Closed ids r i (error x, s) o h k = tt
report-Closed ids r i (ok none, s) o h k = tt
report-Closed ids r i (ok (some c), s) o h k =
    if_holds
      (λ (x : Option TaskCompletionEvent).
        Closed ids r i o.scheduler
          (elim x as (λ _. Reply (Option TaskCompletionEvent) × Orchestrator) [
            | none ↦ (failure invalid_event, record o { scheduler = s })
            | some e ↦ (
              reply (some e),
              record { scheduler = s; event_sink = record_if_sink e o.event_sink },
            )
          ]).0)
      (event_accepted (event_of c ids.run_id ids.event_id ids.created_at)) (λ k'. (c, refl, h, k))
      (λ k'. tt)

guarded-Closed :
    (ids : EventIds) (r : SkillRunResult) (i : String) (m : Option OrchestratorError)
    (x : Answer (Option TaskCompletion) × Scheduler) (o : Orchestrator)
    → Based r o.scheduler x
    → mismatch r i o.scheduler.current_task ≡ m
    → Closed ids r i o.scheduler
        (elim m as (λ _. Reply (Option TaskCompletionEvent) × Orchestrator) [
          | some e ↦ (failure e, o)
          | none ↦ report ids x o
        ]).0
guarded-Closed ids r i (some e) x o h k = tt
guarded-Closed ids r i none x o h k =
    report-Closed ids r i x o h (mismatch-IsNamed r i o.scheduler.current_task k)

-- `complete_from_skill_run` returns an event only if the caller names the running task and the run was of
-- its skill. The event then tells a completion of that task that repeats the Manager stop of the run
-- (its status, kind and evidence, and no verdict), or, only where the run has no stop, a verdict of
-- success as `succeeded` or of failure as `failed`, with the evidence of the verdict.
pub completion_rests_on_authority :
    (ids : EventIds) (r : SkillRunResult) (task_id : String) (o : Orchestrator)
    → Closed ids r task_id o.scheduler (complete_from_skill_run ids r task_id o).0
unfolding complete_from_skill_run
completion_rests_on_authority ids r task_id o =
    guarded-Closed ids r task_id (mismatch r task_id o.scheduler.current_task)
      (authority r.manager_stop_result r.verifier_result r o.scheduler) o
      (authority-Based r.manager_stop_result r.verifier_result r o.scheduler refl refl) refl
