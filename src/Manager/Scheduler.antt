-- ===== src/Manager/Scheduler.antt =====
-- src/fh_agent/manager/scheduler.py: the FIFO lifecycle of tasks. A method returns its answer, an error
-- that it raises, and the scheduler after it.
pub mod Steps
pub mod Invariant
pub mod Fifo
pub mod Lifecycle
mod Tests
use autonomous_game_agent.Prelude.{
  ℕ, suc, ◌+◌, String, Bool, true, false, not, Option, none, some, List, [], ◌∷◌, ◌++◌, ◌&&◌, ◌||◌,
  if◌then◌else◌, is_empty, is_none, leb, str_eq,
}
use autonomous_game_agent.Prelude.Ids.{contains}
use autonomous_game_agent.Verifier.Schemas.{
  VerifierStatus, FailureKind, VerifierResult, failure_kind_value,
}
use autonomous_game_agent.Manager.Task.{TaskSpec, ManagerStopResult, is_blank_id}

pub data TaskStatus : Type 0 where
  pending running succeeded failed timed_out cancelled : TaskStatus

-- `status in TERMINAL_STATUSES`
unfoldable pub is_terminal : TaskStatus → Bool
is_terminal TaskStatus.pending = false
is_terminal TaskStatus.running = false
is_terminal TaskStatus.succeeded = true
is_terminal TaskStatus.failed = true
is_terminal TaskStatus.timed_out = true
is_terminal TaskStatus.cancelled = true

pub record TaskCompletion : Type 0 where
  pub task_id : String
  pub task_spec : TaskSpec
  pub status : TaskStatus
  pub condition : String
  pub evidence_ids : List String
  pub reason : Option String
  pub elapsed_steps : ℕ
  pub verifier_result : Option VerifierResult
  pub verifier_event_id : Option String
  pub manager_stop_result : Option ManagerStopResult
  pub manager_stop_event_id : Option String

-- the three validators: true where they return, false where one raises
unfoldable pub completion_accepted : TaskCompletion → Bool
unfolding is_terminal
completion_accepted c =
    is_terminal c.status
    && not (is_blank_id c.verifier_event_id)
    && not (is_blank_id c.manager_stop_event_id)

pub record ScheduledTask : Type 0 where
  pub task_spec : TaskSpec
  pub status : TaskStatus
  pub elapsed_steps : ℕ
  pub completion : Option TaskCompletion

pub record Scheduler : Type 0 where
  pub queue : List ScheduledTask
  pub current_task : Option ScheduledTask
  pub completed_tasks : List ScheduledTask

pub data SchedulerError : Type 0 where
  no_running_task empty_condition invalid_condition empty_cancel_reason : SchedulerError
  missing_failure_kind invalid_completion : SchedulerError

pub data Answer (A : Type 0) : Type 0 where
  ok : A → Answer A
  error : SchedulerError → Answer A

-- `__init__`
abbrev pub new_scheduler : Scheduler
new_scheduler = record { queue = []; current_task = none; completed_tasks = [] }

abbrev pub scheduled : TaskSpec → ScheduledTask
scheduled spec = record {
  task_spec = spec;
  status = TaskStatus.pending;
  elapsed_steps = 0;
  completion = none;
}

unfoldable pub enqueue : TaskSpec → Scheduler → ScheduledTask × Scheduler
enqueue spec s = (scheduled spec, record s { queue = s.queue ++ scheduled spec ∷ [] })

abbrev pub start_from :
    List ScheduledTask → Option ScheduledTask → Scheduler → Option ScheduledTask × Scheduler
start_from [] current s = (none, s)
start_from (t ∷ rest) (some c) s = (none, s)
start_from (t ∷ rest) none s =
    let next_task : ScheduledTask = record t { status = TaskStatus.running } in
    (some next_task, record s { queue = rest; current_task = some next_task })

unfoldable pub start_next : Scheduler → Option ScheduledTask × Scheduler
start_next s = start_from s.queue s.current_task s

-- The arguments of `_complete_current`.
pub record Ending : Type 0 where
  pub status : TaskStatus
  pub condition : String
  pub evidence_ids : List String
  pub reason : Option String
  pub verifier_result : Option VerifierResult
  pub verifier_event_id : Option String
  pub manager_stop_result : Option ManagerStopResult
  pub manager_stop_event_id : Option String

-- The `TaskCompletion` of a task that ends so.
abbrev pub completion_of : ScheduledTask → Ending → TaskCompletion
completion_of current e = record {
  task_id = current.task_spec.task_id;
  task_spec = current.task_spec;
  status = e.status;
  condition = e.condition;
  evidence_ids = e.evidence_ids;
  reason = e.reason;
  elapsed_steps = current.elapsed_steps;
  verifier_result = e.verifier_result;
  verifier_event_id = e.verifier_event_id;
  manager_stop_result = e.manager_stop_result;
  manager_stop_event_id = e.manager_stop_event_id;
}

-- `_complete_current`, the running task taken from `_require_current_task`
unfoldable pub complete_task :
    ScheduledTask → Ending → Scheduler → Answer TaskCompletion × Scheduler
unfolding completion_accepted
complete_task current e s =
    let completion = completion_of current e in
    if completion_accepted completion
    then (
      ok completion,
      record s {
        completed_tasks =
            s.completed_tasks
            ++ record current { status = e.status; completion = some completion } ∷ [];
        current_task = none;
      },
    )
    else (error invalid_completion, s)

abbrev pub plain : TaskStatus → String → List String → Option String → Ending
plain status condition evidence_ids reason = record {
  status = status;
  condition = condition;
  evidence_ids = evidence_ids;
  reason = reason;
  verifier_result = none;
  verifier_event_id = none;
  manager_stop_result = none;
  manager_stop_event_id = none;
}

-- What `tick` returns once `_complete_current` is through: the task with its completion.
abbrev pub ticked :
    ScheduledTask → Answer TaskCompletion × Scheduler → Answer (Option ScheduledTask) × Scheduler
ticked t (error x, s) = (error x, s)
ticked t (ok c, s) = (ok (some (record t { status = c.status; completion = some c })), s)

unfoldable pub tick_task : ScheduledTask → Scheduler → Answer (Option ScheduledTask) × Scheduler
unfolding complete_task
tick_task current s =
    let running_task : ScheduledTask = record current {
      elapsed_steps = current.elapsed_steps + 1;
    } in
    let s' : Scheduler = record s { current_task = some running_task } in
    if leb running_task.task_spec.timeout_steps running_task.elapsed_steps
    then ticked running_task
        (complete_task running_task (plain TaskStatus.timed_out "timeout" [] (some "timeout")) s')
    else (ok (some running_task), s')

abbrev pub tick_from : Option ScheduledTask → Scheduler → Answer (Option ScheduledTask) × Scheduler
tick_from none s = (ok none, s)
tick_from (some current) s = tick_task current s

unfoldable pub tick : Scheduler → Answer (Option ScheduledTask) × Scheduler
unfolding tick_task
tick s = tick_from s.current_task s

-- `_require_current_task`, and the rest of the method on the running task
abbrev pub on_current :
    {A : Type 0}
    → Option ScheduledTask
    → (ScheduledTask → Scheduler → Answer A × Scheduler)
    → Scheduler
    → Answer A × Scheduler
on_current none f s = (error no_running_task, s)
on_current (some current) f s = f current s

abbrev pub with_current :
    {A : Type 0}
    → (ScheduledTask → Scheduler → Answer A × Scheduler)
    → Scheduler
    → Answer A × Scheduler
with_current f s = on_current s.current_task f s

-- `_validate_condition`: the error that it raises
unfoldable pub validate_condition : String → List String → Option SchedulerError
validate_condition condition allowed =
    if str_eq condition ""
    then some empty_condition
    else if not (is_empty allowed) && not (contains allowed condition)
    then some invalid_condition
    else none

-- `_complete_current` after the validation
abbrev pub validated :
    Option SchedulerError → ScheduledTask → Ending → Scheduler → Answer TaskCompletion × Scheduler
validated (some x) current e s = (error x, s)
validated none current e s = complete_task current e s

unfoldable pub mark_success : String → List String → Scheduler → Answer TaskCompletion × Scheduler
unfolding validate_condition complete_task
mark_success condition evidence_ids = with_current λ current s.
    validated (validate_condition condition current.task_spec.success_conditions) current
      (plain TaskStatus.succeeded condition evidence_ids none) s

unfoldable pub mark_failure :
    String → List String → Option String → Scheduler → Answer TaskCompletion × Scheduler
unfolding validate_condition complete_task
mark_failure condition evidence_ids reason = with_current λ current s.
    validated (validate_condition condition current.task_spec.failure_conditions) current
      (plain TaskStatus.failed condition evidence_ids reason) s

unfoldable pub cancel_current : String → List String → Scheduler → Answer TaskCompletion × Scheduler
unfolding complete_task
cancel_current reason evidence_ids s =
    if str_eq reason ""
    then (error empty_cancel_reason, s)
    else with_current
        (λ current s.
          complete_task current (plain TaskStatus.cancelled "cancelled" evidence_ids (some reason))
            s)
        s

abbrev pub verified : TaskStatus → String → VerifierResult → Option String → Ending
verified status condition r event_id = record (plain status condition r.evidence_ids none) {
  verifier_result = some r;
  verifier_event_id = event_id;
}

-- a completion that was not `None`
abbrev pub completed :
    Answer TaskCompletion × Scheduler → Answer (Option TaskCompletion) × Scheduler
completed (ok c, s) = (ok (some c), s)
completed (error x, s) = (error x, s)

-- the rest of `complete_from_verifier`, by the status and the failure kind of the verdict
unfoldable pub judge :
    VerifierStatus
    → Option FailureKind
    → VerifierResult
    → Option String
    → ScheduledTask
    → Scheduler
    → Answer (Option TaskCompletion) × Scheduler
unfolding complete_task
judge VerifierStatus.abstain kind r event_id current s = (ok none, s)
judge VerifierStatus.progress kind r event_id current s = (ok none, s)
judge VerifierStatus.success kind r event_id current s =
    completed (complete_task current (verified TaskStatus.succeeded "success" r event_id) s)
judge VerifierStatus.failure none r event_id current s = (error missing_failure_kind, s)
judge VerifierStatus.failure (some kind) r event_id current s =
    completed
      (complete_task current (verified TaskStatus.failed (failure_kind_value kind) r event_id) s)

unfoldable pub complete_from_verifier :
    VerifierResult → Option String → Scheduler → Answer (Option TaskCompletion) × Scheduler
unfolding judge
complete_from_verifier r event_id =
    with_current λ current s. judge r.status r.failure_kind r event_id current s

-- the status of a task that a Manager stop of the given kind closes
unfoldable pub stop_status : FailureKind → TaskStatus
stop_status FailureKind.timeout = TaskStatus.timed_out
stop_status _ = TaskStatus.failed

abbrev pub stopped : ManagerStopResult → Option String → Ending
unfolding stop_status
stopped r event_id =
    record (plain (stop_status r.failure_kind) (failure_kind_value r.failure_kind) r.evidence_ids
      (some r.reason)) { manager_stop_result = some r; manager_stop_event_id = event_id }

unfoldable pub complete_from_manager_stop :
    ManagerStopResult → Option String → Scheduler → Answer TaskCompletion × Scheduler
unfolding complete_task stop_status
complete_from_manager_stop r event_id =
    with_current λ current s. complete_task current (stopped r event_id) s
