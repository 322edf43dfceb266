-- ===== src/Manager/Orchestrator/Closing.antt =====
-- Which events the orchestrator's methods report and record.
use autonomous_game_agent.Prelude.{
  ◌+◌, String, Option, none, some, List, [], ◌∷◌, ◌++◌, ◌≡◌, refl, if_holds, leb, last?, str_eq,
}
use autonomous_game_agent.Verifier.Schemas.{
  VerifierResult, VerifierStatus, FailureKind, failure_kind_value,
}
use autonomous_game_agent.Manager.Task.{ManagerStopResult}
use autonomous_game_agent.Manager.Scheduler.{
  TaskStatus, TaskCompletion, ScheduledTask, Scheduler, SchedulerError, Answer, Ending, ok, error,
  complete_task, completion_of, completion_accepted, completed, validated, judge, tick_task, ticked,
  mark_success, mark_failure, cancel_current, complete_from_verifier, complete_from_manager_stop,
  validate_condition, plain, verified, stopped, on_current, with_current, tick_from,
}
use autonomous_game_agent.Manager.Scheduler
use autonomous_game_agent.Manager.Scheduler.Invariant.{IsValid, IsRunning}
use autonomous_game_agent.Manager.SkillRunner.Results.{SkillRunResult}
use autonomous_game_agent.Manager.Events.{
  TaskCompletionEvent, task_completion_to_event, event_accepted, event_of,
}
use autonomous_game_agent.Manager.Orchestrator.{
  Orchestrator, OrchestratorError, invalid_event, scheduler_error, Reply, reply, failure, EventIds,
  record_if_sink, publish, report, completion_of_tick, authority, record_id, mismatch,
  complete_from_skill_run,
}
use autonomous_game_agent.Manager.Orchestrator

-- What a method of the scheduler did to the completed tasks: it added the task of the completion that it
-- answers, or nothing.
abbrev Closes : Scheduler → Answer (Option TaskCompletion) × Scheduler → Type 0
Closes s (ok (some c), s') =
    (t : ScheduledTask) × (s'.completed_tasks ≡ s.completed_tasks ++ t ∷ [])
    × (t.completion ≡ some c)
Closes s (ok none, s') = s'.completed_tasks ≡ s.completed_tasks
Closes s (error x, s') = s'.completed_tasks ≡ s.completed_tasks

complete_task-Closes :
    (t : ScheduledTask) (e : Ending) (s : Scheduler) → Closes s (completed (complete_task t e s))
unfolding complete_task
complete_task-Closes t e s =
    if_holds (λ x. Closes s (completed x)) (completion_accepted (completion_of t e))
      (λ h. (record t { status = e.status; completion = some (completion_of t e) }, refl, refl))
      (λ h. refl)

validated-Closes :
    (x : Option SchedulerError) (t : ScheduledTask) (e : Ending) (s : Scheduler)
    → Closes s (completed (validated x t e s))
validated-Closes (some x) t e s = refl
validated-Closes none t e s = complete_task-Closes t e s

judge-Closes :
    (status : VerifierStatus) (kind : Option FailureKind) (r : VerifierResult) (i : Option String)
    (t : ScheduledTask) (s : Scheduler)
    → Closes s (judge status kind r i t s)
unfolding judge
judge-Closes VerifierStatus.success kind r i t s =
    complete_task-Closes t (verified TaskStatus.succeeded "success" r i) s
judge-Closes VerifierStatus.progress kind r i t s = refl
judge-Closes VerifierStatus.abstain kind r i t s = refl
judge-Closes VerifierStatus.failure none r i t s = refl
judge-Closes VerifierStatus.failure (some k) r i t s =
    complete_task-Closes t (verified TaskStatus.failed (failure_kind_value k) r i) s

-- a method that needs a running task, as it is and with its completion made optional
on_current-Closes :
    (o : Option ScheduledTask)
    (f : ScheduledTask → Scheduler → Answer (Option TaskCompletion) × Scheduler) (s : Scheduler)
    → ((t : ScheduledTask) → Closes s (f t s))
    → Closes s (on_current o f s)
on_current-Closes none f s h = refl
on_current-Closes (some t) f s h = h t

on_current-completed-Closes :
    (o : Option ScheduledTask) (f : ScheduledTask → Scheduler → Answer TaskCompletion × Scheduler)
    (s : Scheduler)
    → ((t : ScheduledTask) → Closes s (completed (f t s)))
    → Closes s (completed (on_current o f s))
on_current-completed-Closes none f s h = refl
on_current-completed-Closes (some t) f s h = h t

ticked-Closes :
    (t : ScheduledTask) (x : Answer TaskCompletion × Scheduler) (s : Scheduler)
    → Closes s (completed x)
    → Closes s (completion_of_tick (ticked t x))
ticked-Closes t (ok c, s') s h = h
ticked-Closes t (error x, s') s h = h

tick-Closes :
    (o : Option ScheduledTask) (s : Scheduler)
    → IsRunning o
    → Closes s (completion_of_tick (tick_from o s))
unfolding tick_task
tick-Closes none s h = refl
tick-Closes (some t) s h =
    let t' : ScheduledTask = record t { elapsed_steps = t.elapsed_steps + 1 } in
    let due : Ending = plain TaskStatus.timed_out "timeout" [] (some "timeout") in
    if_holds (λ x. Closes s (completion_of_tick x))
      (leb t.task_spec.timeout_steps (t.elapsed_steps + 1))
      (λ k.
        ticked-Closes t' (complete_task t' due (record s { current_task = some t' })) s
          (complete_task-Closes t' due (record s { current_task = some t' })))
      (λ k. rw h.1 refl)

authority-Closes :
    (stop : Option ManagerStopResult) (verdict : Option VerifierResult) (r : SkillRunResult)
    (s : Scheduler)
    → Closes s (authority stop verdict r s)
unfolding authority complete_from_manager_stop complete_from_verifier
authority-Closes (some stop) verdict r s =
    on_current-completed-Closes s.current_task _ s
      (λ t. complete_task-Closes t (stopped stop (record_id r.manager_stop_event_record)) s)
authority-Closes none none r s = refl
authority-Closes none (some v) r s =
    on_current-Closes s.current_task _ s
      (λ t. judge-Closes v.status v.failure_kind v (record_id (last? r.verifier_event_records)) t s)

-- The calls that may close a task.
pub data Op : Type 0 where
  time : Op
  succeed : String → List String → Op
  fail : String → List String → Option String → Op
  abort : String → List String → Op
  close : SkillRunResult → String → Op

unfoldable pub call :
    Op → EventIds → Orchestrator → Reply (Option TaskCompletionEvent) × Orchestrator
call time ids o = Orchestrator.tick ids o
call (succeed c e) ids o = Orchestrator.mark_success ids c e o
call (fail c e r) ids o = Orchestrator.mark_failure ids c e r o
call (abort r e) ids o = Orchestrator.cancel_current ids r e o
call (close r i) ids o = complete_from_skill_run ids r i o

-- the task that a call closed, of which the event tells, and the sink after it
pub record Told (ids : EventIds) (e : TaskCompletionEvent) (o o' : Orchestrator) : Type 0 where
  pub task : ScheduledTask
  pub completion : TaskCompletion
  pub closed : o'.scheduler.completed_tasks ≡ o.scheduler.completed_tasks ++ task ∷ []
  pub carried : task.completion ≡ some completion
  pub told : e ≡ event_of completion ids.run_id ids.event_id ids.created_at
  pub recorded : o'.event_sink ≡ record_if_sink e o.event_sink

abbrev pub Reported :
    EventIds → Orchestrator → Reply (Option TaskCompletionEvent) × Orchestrator → Type 0
Reported ids o (reply (some e), o') = Told ids e o o'
Reported ids o (reply none, o') =
    (o'.scheduler.completed_tasks ≡ o.scheduler.completed_tasks) × (o'.event_sink ≡ o.event_sink)
Reported ids o (failure invalid_event, o') = o'.event_sink ≡ o.event_sink
Reported ids o (failure _, o') =
    (o'.scheduler.completed_tasks ≡ o.scheduler.completed_tasks) × (o'.event_sink ≡ o.event_sink)

report-Reported :
    (ids : EventIds) (x : Answer (Option TaskCompletion) × Scheduler) (o : Orchestrator)
    → Closes o.scheduler x
    → Reported ids o (report ids x o)
unfolding report publish task_completion_to_event
report-Reported ids (error x, s) o h = (h, refl)
report-Reported ids (ok none, s) o h = (h, refl)
report-Reported ids (ok (some c), s) o (t, closed, carried) =
    if_holds
      (λ (x : Option TaskCompletionEvent).
        Reported ids o (elim x as (λ _. Reply (Option TaskCompletionEvent) × Orchestrator) [
          | none ↦ (failure invalid_event, record o { scheduler = s })
          | some e ↦
              (reply (some e), record { scheduler = s; event_sink = record_if_sink e o.event_sink })
        ]))
      (event_accepted (event_of c ids.run_id ids.event_id ids.created_at))
      (λ k. record {
        task = t;
        completion = c;
        closed = closed;
        carried = carried;
        told = refl;
        recorded = refl;
      })
      (λ k. refl)

refused-Reported :
    (ids : EventIds) (x : OrchestratorError) (o : Orchestrator) → Reported ids o (failure x, o)
refused-Reported ids invalid_event o = refl
refused-Reported ids (scheduler_error x) o = (refl, refl)
refused-Reported ids OrchestratorError.task_id_mismatch o = (refl, refl)
refused-Reported ids OrchestratorError.skill_name_mismatch o = (refl, refl)

guarded-Reported :
    (ids : EventIds) (m : Option OrchestratorError) (x : Answer (Option TaskCompletion) × Scheduler)
    (o : Orchestrator)
    → Closes o.scheduler x
    → Reported ids o (elim m as (λ _. Reply (Option TaskCompletionEvent) × Orchestrator) [
      | some e ↦ (failure e, o)
      | none ↦ report ids x o
    ])
guarded-Reported ids (some e) x o h = refused-Reported ids e o
guarded-Reported ids none x o h = report-Reported ids x o h

cancel-Closes :
    (reason : String) (e : List String) (s : Scheduler)
    → Closes s (completed (cancel_current reason e s))
unfolding cancel_current
cancel-Closes reason e s =
    if_holds (λ x. Closes s (completed x)) (str_eq reason "") (λ h. refl)
      (λ h.
        on_current-completed-Closes s.current_task _ s
          (λ t. complete_task-Closes t (plain TaskStatus.cancelled "cancelled" e (some reason)) s))

-- From a scheduler in a valid state: a call that returns an event has closed one task, the event tells
-- the completion of that task under the names given, and the sink, if there is one, holds the event as
-- its last. A call that returns no event, or raises for any other reason than an event that is not
-- accepted, has closed nothing; no call that raises records anything.
pub calls_report_what_they_close :
    (op : Op) (ids : EventIds) (o : Orchestrator)
    → IsValid o.scheduler
    → Reported ids o (call op ids o)
unfolding call Orchestrator.tick Orchestrator.mark_success Orchestrator.mark_failure
    Orchestrator.cancel_current complete_from_skill_run Scheduler.tick mark_success mark_failure
    cancel_current
calls_report_what_they_close time ids o v =
    report-Reported ids _ o (tick-Closes o.scheduler.current_task o.scheduler v.current)
calls_report_what_they_close (succeed c e) ids o v = report-Reported ids _ o (
    on_current-completed-Closes o.scheduler.current_task _ o.scheduler (λ t.
      validated-Closes (validate_condition c t.task_spec.success_conditions) t
        (plain TaskStatus.succeeded c e none) o.scheduler))
calls_report_what_they_close (fail c e r) ids o v = report-Reported ids _ o (
    on_current-completed-Closes o.scheduler.current_task _ o.scheduler (λ t.
      validated-Closes (validate_condition c t.task_spec.failure_conditions) t
        (plain TaskStatus.failed c e r) o.scheduler))
calls_report_what_they_close (abort r e) ids o v =
    report-Reported ids _ o (cancel-Closes r e o.scheduler)
calls_report_what_they_close (close r i) ids o v =
    guarded-Reported ids (mismatch r i o.scheduler.current_task) _ o
      (authority-Closes r.manager_stop_result r.verifier_result r o.scheduler)
