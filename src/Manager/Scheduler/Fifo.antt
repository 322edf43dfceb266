-- ===== src/Manager/Scheduler/Fifo.antt =====
-- No task is lost, duplicated or overtaken, and a call that raises changes nothing.
use autonomous_game_agent.Prelude.{
  ◌+◌, String, true, Option, none, some, List, [], ◌∷◌, ◌++◌, map, ◌≡◌, refl, ◌∙◌, sym,
  append_assoc, append-nil, map-append, Bool-cases, inl, inr, leb, str_eq,
}
use autonomous_game_agent.Verifier.Schemas.{
  VerifierResult, VerifierStatus, FailureKind, failure_kind_value,
}
use autonomous_game_agent.Manager.Task.{TaskSpec, ManagerStopResult}
use autonomous_game_agent.Manager.Scheduler.{
  TaskStatus, TaskCompletion, ScheduledTask, Scheduler, SchedulerError, Answer, Ending, ok, error,
  completion_accepted, enqueue, start_next, start_from, complete_task, completion_of, tick,
  tick_from, tick_task, mark_success, mark_failure, cancel_current, complete_from_verifier,
  complete_from_manager_stop, validated, completed, judge, on_current, with_current, plain,
  verified, stopped, validate_condition,
}
use autonomous_game_agent.Manager.Scheduler.Steps.{
  Op, submit, start, time, succeed, fail, abort, verdict, halt, step, run, raises, is_error,
}

abbrev spec_of : ScheduledTask → TaskSpec
spec_of t = t.task_spec

abbrev current_specs : Option ScheduledTask → List TaskSpec
current_specs none = []
current_specs (some t) = t.task_spec ∷ []

-- The specifications that the scheduler has accepted, in the order completed, running, queued.
abbrev pub history : Scheduler → List TaskSpec
history s = map spec_of s.completed_tasks ++ (current_specs s.current_task ++ map spec_of s.queue)

abbrev pub submitted : Op → List TaskSpec
submitted (submit spec) = spec ∷ []
submitted _ = []

abbrev pub submissions : List Op → List TaskSpec
submissions [] = []
submissions (op ∷ ops) = submitted op ++ submissions ops

-- The outcome of a call has the history of the scheduler before it; if the call raises, it has left the
-- scheduler as it was.
abbrev Sound : {A : Type 0} → Scheduler → Answer A × Scheduler → Type 0
Sound s x = (history x.1 ≡ history s) × (is_error x.0 ≡ true → x.1 ≡ s)

complete_task-Sound :
    (t : ScheduledTask) (e : Ending) (s : Scheduler)
    → s.current_task ≡ some t
    → Sound s (complete_task t e s)
unfolding complete_task
complete_task-Sound t e s at = elim (Bool-cases (completion_accepted (completion_of t e))) [
  | inl accepted ↦ rw accepted (simp (map-append, at, append_assoc), λ h. cc)
  | inr refused ↦ rw refused (refl, λ h. refl)
]

tick_task-Sound :
    (t : ScheduledTask) (s : Scheduler) → s.current_task ≡ some t → Sound s (tick_task t s)
unfolding tick_task
tick_task-Sound t s at = elim (Bool-cases (leb t.task_spec.timeout_steps (t.elapsed_steps + 1))) [
  | inl due ↦ rw due (simp (map-append, at, append_assoc), λ h. cc)
  | inr early ↦ rw early (simp at, λ h. cc)
]

with_current-Sound :
    {A : Type 0} (f : ScheduledTask → Scheduler → Answer A × Scheduler) (s : Scheduler)
    → ((t : ScheduledTask) → s.current_task ≡ some t → Sound s (f t s))
    → Sound s (with_current f s)
with_current-Sound f s k = at s.current_task refl
  where
    at : (o : Option ScheduledTask) → s.current_task ≡ o → Sound s (on_current o f s)
    at none e = (refl, λ h. refl)
    at (some t) e = k t e

validated-Sound :
    (o : Option SchedulerError) (t : ScheduledTask) (e : Ending) (s : Scheduler)
    → s.current_task ≡ some t
    → Sound s (validated o t e s)
validated-Sound (some x) t e s at = (refl, λ h. refl)
validated-Sound none t e s at = complete_task-Sound t e s at

completed-Sound :
    (s : Scheduler) (x : Answer TaskCompletion × Scheduler) → Sound s x → Sound s (completed x)
completed-Sound s (ok c, s') h = (h.0, λ k. cc)
completed-Sound s (error x, s') h = (h.0, λ k. h.1 refl)

judge-Sound :
    (status : VerifierStatus) (kind : Option FailureKind) (r : VerifierResult) (i : Option String)
    (t : ScheduledTask) (s : Scheduler)
    → s.current_task ≡ some t
    → Sound s (judge status kind r i t s)
unfolding judge
judge-Sound VerifierStatus.abstain kind r i t s at = (refl, λ h. refl)
judge-Sound VerifierStatus.progress kind r i t s at = (refl, λ h. refl)
judge-Sound VerifierStatus.success kind r i t s at =
    let e : Ending = verified TaskStatus.succeeded "success" r i in
    completed-Sound s (complete_task t e s) (complete_task-Sound t e s at)
judge-Sound VerifierStatus.failure none r i t s at = (refl, λ h. refl)
judge-Sound VerifierStatus.failure (some k) r i t s at =
    let e : Ending = verified TaskStatus.failed (failure_kind_value k) r i in
    completed-Sound s (complete_task t e s) (complete_task-Sound t e s at)

tick-Sound : (s : Scheduler) → Sound s (tick s)
unfolding tick
tick-Sound s = at s.current_task refl
  where
    at : (o : Option ScheduledTask) → s.current_task ≡ o → Sound s (tick_from o s)
    at none e = (refl, λ h. refl)
    at (some t) e = tick_task-Sound t s e

mark_success-Sound :
    (c : String) (ids : List String) (s : Scheduler) → Sound s (mark_success c ids s)
unfolding mark_success
mark_success-Sound c ids s = with_current-Sound _ s (λ t at.
    validated-Sound (validate_condition c t.task_spec.success_conditions) t
      (plain TaskStatus.succeeded c ids none) s at)

mark_failure-Sound :
    (c : String) (ids : List String) (reason : Option String) (s : Scheduler)
    → Sound s (mark_failure c ids reason s)
unfolding mark_failure
mark_failure-Sound c ids reason s = with_current-Sound _ s (λ t at.
    validated-Sound (validate_condition c t.task_spec.failure_conditions) t
      (plain TaskStatus.failed c ids reason) s at)

cancel_current-Sound :
    (reason : String) (ids : List String) (s : Scheduler) → Sound s (cancel_current reason ids s)
unfolding cancel_current
cancel_current-Sound reason ids s = elim (Bool-cases (str_eq reason "")) [
  | inl blank ↦ rw blank (refl, λ h. refl)
  | inr given ↦ rw given (with_current-Sound finish s (λ t at. complete_task-Sound t e s at))
]
  where
    e : Ending
    e = plain TaskStatus.cancelled "cancelled" ids (some reason)

    finish : ScheduledTask → Scheduler → Answer TaskCompletion × Scheduler
    finish t s' = complete_task t e s'

verdict-Sound :
    (r : VerifierResult) (i : Option String) (s : Scheduler)
    → Sound s (complete_from_verifier r i s)
unfolding complete_from_verifier
verdict-Sound r i s =
    with_current-Sound _ s (λ t at. judge-Sound r.status r.failure_kind r i t s at)

halt-Sound :
    (r : ManagerStopResult) (i : Option String) (s : Scheduler)
    → Sound s (complete_from_manager_stop r i s)
unfolding complete_from_manager_stop
halt-Sound r i s = with_current-Sound _ s (λ t at. complete_task-Sound t (stopped r i) s at)

start_from-history :
    (queue : List ScheduledTask) (current : Option ScheduledTask) (s : Scheduler)
    → s.queue ≡ queue
    → s.current_task ≡ current
    → history (start_from queue current s).1 ≡ history s
start_from-history [] current s q c = refl
start_from-history (t ∷ rest) (some u) s q c = refl
start_from-history (t ∷ rest) none s q c = simp (q, c)

-- Every call leaves the specifications accepted so far in their order, completed before running before
-- queued, and a submission adds its own at the end.
pub step-history : (op : Op) (s : Scheduler) → history (step op s) ≡ history s ++ submitted op
unfolding step enqueue start_next
step-history (submit spec) s = simp (map-append, append_assoc)
step-history start s =
    start_from-history s.queue s.current_task s refl refl ∙ sym (append-nil (history s))
step-history time s = (tick-Sound s).0 ∙ sym (append-nil (history s))
step-history (succeed c ids) s = (mark_success-Sound c ids s).0 ∙ sym (append-nil (history s))
step-history (fail c ids r) s = (mark_failure-Sound c ids r s).0 ∙ sym (append-nil (history s))
step-history (abort r ids) s = (cancel_current-Sound r ids s).0 ∙ sym (append-nil (history s))
step-history (verdict r i) s = (verdict-Sound r i s).0 ∙ sym (append-nil (history s))
step-history (halt r i) s = (halt-Sound r i s).0 ∙ sym (append-nil (history s))

-- After any calls, the specifications of the completed tasks, the running one and the queue, read in that
-- order, are those before the calls and then the submissions in their order: none is lost, repeated or
-- overtaken.
pub run-history :
    (ops : List Op) (s : Scheduler) → history (run ops s) ≡ history s ++ submissions ops
unfolding run
run-history [] s = sym (append-nil (history s))
run-history (op ∷ ops) s = rw (run-history ops (step op s), step-history op s, append_assoc)

-- A call that raises leaves the scheduler as it was.
pub raise_changes_nothing : (op : Op) (s : Scheduler) → raises op s ≡ true → step op s ≡ s
unfolding step raises
raise_changes_nothing (submit spec) s h = cc
raise_changes_nothing start s h = cc
raise_changes_nothing time s h = (tick-Sound s).1 h
raise_changes_nothing (succeed c ids) s h = (mark_success-Sound c ids s).1 h
raise_changes_nothing (fail c ids r) s h = (mark_failure-Sound c ids r s).1 h
raise_changes_nothing (abort r ids) s h = (cancel_current-Sound r ids s).1 h
raise_changes_nothing (verdict r i) s h = (verdict-Sound r i s).1 h
raise_changes_nothing (halt r i) s h = (halt-Sound r i s).1 h
