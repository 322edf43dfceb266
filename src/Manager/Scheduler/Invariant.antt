-- ===== src/Manager/Scheduler/Invariant.antt =====
-- The lifecycle invariant of the scheduler, and that every call keeps it.
use autonomous_game_agent.Prelude.{
  ◌+◌, ◌≤◌, ◌<◌, String, true, Option, none, some, List, [], ◌∷◌, ◌≡◌, refl, arith, All, All-append,
  Bool-cases, inl, inr, leb, str_eq,
}
use autonomous_game_agent.Verifier.Schemas.{
  VerifierResult, VerifierStatus, FailureKind, failure_kind_value,
}
use autonomous_game_agent.Manager.Task.{TaskSpec, fields_accepted}
use autonomous_game_agent.Manager.Scheduler.{
  TaskStatus, TaskCompletion, ScheduledTask, Scheduler, SchedulerError, Answer, Ending, ok, error,
  is_terminal, completion_accepted, enqueue, start_next, start_from, complete_task, completion_of,
  tick, tick_task, mark_success, mark_failure, cancel_current, complete_from_verifier,
  complete_from_manager_stop, validate_condition, completed, plain, verified, with_current,
  on_current, tick_from, validated, judge, stopped,
}
use autonomous_game_agent.Manager.Scheduler.Steps.{
  Op, submit, start, time, succeed, fail, abort, verdict, halt, step, run,
}

abbrev pub IsQueued : ScheduledTask → Type 0
IsQueued t =
    (t.status ≡ TaskStatus.pending)
    × (t.elapsed_steps ≡ 0)
    × (t.completion ≡ none)
    × (0 < t.task_spec.timeout_steps)

abbrev pub IsRunning : Option ScheduledTask → Type 0
IsRunning none = Unit
IsRunning (some t) =
    (t.status ≡ TaskStatus.running)
    × (t.completion ≡ none)
    × (t.elapsed_steps < t.task_spec.timeout_steps)

-- The completion tells the task that it stands on.
abbrev Tells : ScheduledTask → Option TaskCompletion → Type 0
Tells t none = ⊥
Tells t (some c) =
    (c.status ≡ t.status)
    × (c.task_spec ≡ t.task_spec)
    × (c.task_id ≡ t.task_spec.task_id)
    × (c.elapsed_steps ≡ t.elapsed_steps)

abbrev pub IsDone : ScheduledTask → Type 0
IsDone t =
    (is_terminal t.status ≡ true)
    × Tells t t.completion
    × (t.elapsed_steps ≤ t.task_spec.timeout_steps)

-- Queued tasks are pending and untouched; a current task is running, has no completion and has time
-- left; completed tasks are terminal, within their timeout, and carry a completion that repeats their
-- status, specification, ID and elapsed steps.
pub record IsValid (s : Scheduler) : Type 0 where
  pub queued : All IsQueued s.queue
  pub current : IsRunning s.current_task
  pub done : All IsDone s.completed_tasks

accepted-is_terminal :
    (c : TaskCompletion) → completion_accepted c ≡ true → is_terminal c.status ≡ true
unfolding completion_accepted
accepted-is_terminal c h = ground arith

-- A completion that is accepted closes the task.
complete_task_closes :
    (t : ScheduledTask) (e : Ending) (s : Scheduler)
    → All IsQueued s.queue
    → All IsDone s.completed_tasks
    → t.elapsed_steps ≤ t.task_spec.timeout_steps
    → completion_accepted (completion_of t e) ≡ true
    → IsValid (complete_task t e s).1
unfolding complete_task
complete_task_closes t e s q d fits accepted = rw accepted (record {
  queued = q;
  current = tt;
  done =
      All-append IsDone s.completed_tasks _ d
        ((accepted-is_terminal (completion_of t e) accepted, (refl, refl, refl, refl), fits), tt);
})

complete_task-IsValid :
    (t : ScheduledTask) (e : Ending) (s : Scheduler)
    → IsValid s
    → t.elapsed_steps ≤ t.task_spec.timeout_steps
    → IsValid (complete_task t e s).1
unfolding complete_task
complete_task-IsValid t e s v fits = elim (Bool-cases (completion_accepted (completion_of t e))) [
  | inl yes_accepted ↦ complete_task_closes t e s v.queued v.done fits yes_accepted
  | inr refused ↦ rw refused v
]

pub enqueue-IsValid :
    (spec : TaskSpec) (s : Scheduler)
    → fields_accepted spec ≡ true
    → IsValid s
    → IsValid (enqueue spec s).1
unfolding enqueue fields_accepted
enqueue-IsValid spec s h v = record {
  queued = All-append IsQueued s.queue _ v.queued ((refl, refl, refl, ground arith), tt);
  current = v.current;
  done = v.done;
}

start_from-IsValid :
    (queue : List ScheduledTask) (current : Option ScheduledTask) (s : Scheduler)
    → All IsQueued queue
    → IsValid s
    → IsValid (start_from queue current s).1
start_from-IsValid [] current s q v = v
start_from-IsValid (t ∷ rest) (some c) s q v = v
start_from-IsValid (t ∷ rest) none s q v = record {
  queued = q.1;
  current = (refl, q.0.2, ground arith);
  done = v.done;
}

tick_task-IsValid :
    (t : ScheduledTask) (s : Scheduler) → IsValid s → IsRunning (some t) → IsValid (tick_task t s).1
unfolding tick_task
tick_task-IsValid t s v r =
    elim (Bool-cases (leb t.task_spec.timeout_steps (t.elapsed_steps + 1))) [
      | inl due ↦ rw due (record {
        queued = v.queued;
        current = tt;
        done =
            All-append IsDone s.completed_tasks _ v.done
              ((refl, (refl, refl, refl, refl), ground arith), tt);
      })
      | inr early ↦
          rw early (record { queued = v.queued; current = (r.0, r.1, ground arith); done = v.done })
    ]

-- A method on the running task keeps the invariant if it does so on a running task.
with_current-IsValid :
    {A : Type 0} (f : ScheduledTask → Scheduler → Answer A × Scheduler) (s : Scheduler)
    → IsValid s
    → ((t : ScheduledTask) → IsRunning (some t) → IsValid (f t s).1)
    → IsValid (with_current f s).1
with_current-IsValid f s v k = at s.current_task v.current
  where
    at : (o : Option ScheduledTask) → IsRunning o → IsValid (on_current o f s).1
    at none r = v
    at (some t) r = k t r

-- A completion after a validation keeps the invariant.
validated-IsValid :
    (o : Option SchedulerError) (t : ScheduledTask) (e : Ending) (s : Scheduler)
    → IsValid s
    → IsRunning (some t)
    → IsValid (validated o t e s).1
validated-IsValid (some x) t e s v r = v
validated-IsValid none t e s v r = complete_task-IsValid t e s v (ground arith)

cancel-IsValid :
    (reason : String) (ids : List String) (s : Scheduler)
    → IsValid s
    → IsValid (cancel_current reason ids s).1
unfolding cancel_current
cancel-IsValid reason ids s v = elim (Bool-cases (str_eq reason "")) [
  | inl blank ↦ rw blank v
  | inr given ↦
      rw given
        (with_current-IsValid finish s v (λ t r. complete_task-IsValid t e s v (ground arith)))
]
  where
    e : Ending
    e = plain TaskStatus.cancelled "cancelled" ids (some reason)

    finish : ScheduledTask → Scheduler → Answer TaskCompletion × Scheduler
    finish t s' = complete_task t e s'

completed-IsValid : (x : Answer TaskCompletion × Scheduler) → IsValid x.1 → IsValid (completed x).1
completed-IsValid (ok c, s) v = v
completed-IsValid (error x, s) v = v

judged-IsValid :
    (status : VerifierStatus) (kind : Option FailureKind) (r : VerifierResult) (i : Option String)
    (t : ScheduledTask) (s : Scheduler)
    → IsValid s
    → IsRunning (some t)
    → IsValid (judge status kind r i t s).1
unfolding judge
judged-IsValid VerifierStatus.abstain kind r i t s v run = v
judged-IsValid VerifierStatus.progress kind r i t s v run = v
judged-IsValid VerifierStatus.success kind r i t s v run =
    let e : Ending = verified TaskStatus.succeeded "success" r i in
    completed-IsValid (complete_task t e s) (complete_task-IsValid t e s v (ground arith))
judged-IsValid VerifierStatus.failure none r i t s v run = v
judged-IsValid VerifierStatus.failure (some k) r i t s v run =
    let e : Ending = verified TaskStatus.failed (failure_kind_value k) r i in
    completed-IsValid (complete_task t e s) (complete_task-IsValid t e s v (ground arith))

-- What a client may submit: a task specification that its own model accepts.
abbrev pub Submits : Op → Type 0
Submits (submit spec) = fields_accepted spec ≡ true
Submits _ = Unit

-- Every call of the scheduler, raising or not, keeps the lifecycle invariant, if a submitted
-- specification is one that its own model accepts.
pub step-IsValid : (op : Op) (s : Scheduler) → Submits op → IsValid s → IsValid (step op s)
unfolding step tick mark_success mark_failure cancel_current complete_from_verifier
    complete_from_manager_stop start_next
step-IsValid (submit spec) s h v = enqueue-IsValid spec s h v
step-IsValid start s h v = start_from-IsValid s.queue s.current_task s v.queued v
step-IsValid time s h v = at s.current_task v.current
  where
    at : (o : Option ScheduledTask) → IsRunning o → IsValid (tick_from o s).1
    at none r = v
    at (some t) r = tick_task-IsValid t s v r
step-IsValid (succeed c ids) s h v = with_current-IsValid _ s v (λ t r.
    validated-IsValid (validate_condition c t.task_spec.success_conditions) t
      (plain TaskStatus.succeeded c ids none) s v r)
step-IsValid (fail c ids reason) s h v = with_current-IsValid _ s v (λ t r.
    validated-IsValid (validate_condition c t.task_spec.failure_conditions) t
      (plain TaskStatus.failed c ids reason) s v r)
step-IsValid (abort reason ids) s h v = cancel-IsValid reason ids s v
step-IsValid (verdict r i) s h v =
    with_current-IsValid _ s v (λ t run. judged-IsValid r.status r.failure_kind r i t s v run)
step-IsValid (halt r i) s h v =
    with_current-IsValid _ s v (λ t run. complete_task-IsValid t (stopped r i) s v (ground arith))

abbrev pub SubmitsAll : List Op → Type 0
SubmitsAll [] = Unit
SubmitsAll (op ∷ ops) = Submits op × SubmitsAll ops

-- From a scheduler with the invariant every sequence of calls leads to one with the invariant, if the
-- specifications submitted are ones that their own model accepts.
pub run-IsValid : (ops : List Op) (s : Scheduler) → SubmitsAll ops → IsValid s → IsValid (run ops s)
unfolding run
run-IsValid [] s h v = v
run-IsValid (op ∷ ops) s h v = run-IsValid ops (step op s) h.1 (step-IsValid op s h.0 v)
