-- ===== src/Manager/HierarchicalStep/Planned.antt =====
-- A step of src/fh_agent/manager/hierarchical_step.py whose planner is the Cortex of src/fh_agent/planner/cortex.py.
use autonomous_game_agent.Prelude.{
  ℕ, String, Bool, true, false, Option, none, some, List, map, ◌≡◌, ap, ◌||◌, arith, str_eq,
}
use autonomous_game_agent.Prelude.Ids.{contains, in_any}
use autonomous_game_agent.Game.Call.{Call, returns, raises}
use autonomous_game_agent.Observation.{Observation}
use autonomous_game_agent.Planner.Json.{Json, Entries}
use autonomous_game_agent.Planner.Output.{
  PlannerOutput, RiskLimit, EvidenceBackedClaim, MemoryUpdateRequest,
}
use autonomous_game_agent.Planner.Notes.{ReflectionNote, Raw}
use autonomous_game_agent.Planner.Context.{CortexContext}
use autonomous_game_agent.Planner.Cortex.{plan_next_goal}
use autonomous_game_agent.Planner.Cortex.Evidence.{context_sources, in_any-append}
use autonomous_game_agent.Planner.Cortex.Scope.{IsInScope, plan-IsInScope}
use autonomous_game_agent.Manager.Capabilities.{SkillCapabilityContract}
use autonomous_game_agent.Manager.Task.{TaskSpec}
use autonomous_game_agent.Manager.TargetRef.{SkillName, GroundedTarget, TargetType}
use autonomous_game_agent.Manager.TaskManager.{evidence_of_target, evidence_of_grounding}
use autonomous_game_agent.Manager.EventLog.{Log}
use autonomous_game_agent.Manager.Grounding.{GroundingPolicy, VisibleCandidate}
use autonomous_game_agent.Manager.Grounding
use autonomous_game_agent.Manager.Scheduler.{ScheduledTask}
use autonomous_game_agent.Manager.SkillContract.{RunnableSkill}
use autonomous_game_agent.Manager.SkillRunner.Runtime.{Runtime, Verifier}
use autonomous_game_agent.Manager.Orchestrator.{Orchestrator, EventIds}
use autonomous_game_agent.Manager.Intake.{SubmissionIds}
use autonomous_game_agent.Manager.Replan.{Memory}
use autonomous_game_agent.Manager.HierarchicalStep.{
  HierarchicalTaskStepResult, StepAnswer, stepped, step_raised, run_once,
}
use autonomous_game_agent.Manager.HierarchicalStep.Composed.{Promise, run_once-IsComposed}

-- the Cortex's call, as the step sees it
abbrev pub called : {A : Type 0} → Option A → Call A
called none = raises
called (some a) = returns a

returned : {A : Type 0} (o : Option A) (a : A) → called o ≡ returns a → o ≡ some a
returned none a h = absurd (cc)
returned (some b) a h = cc

module _ (lower : String → String) (note_fields_of : Entries → Option ReflectionNote)
    (risk_fields_of : Entries → Option RiskLimit) (fields_of : Json → Option PlannerOutput)
    (complete : CortexContext → Option Json) where
  abbrev pub cortex_planner : Observation → Memory Raw → List SkillName → Call PlannerOutput
  cortex_planner o memory skills =
      called (
        plan_next_goal lower note_fields_of risk_fields_of fields_of complete o memory
          (some skills))

  module _ (task_id_for : TaskSpec → String) (capabilities : SkillCapabilityContract)
      (target_id_for : TargetType → VisibleCandidate → List String → String)
      (policy : GroundingPolicy) {W : Type 0} (rt : Runtime W) (fresh : ℕ → String) (logging : Bool)
      (skill_for : SkillName → Option GroundedTarget → Call RunnableSkill)
      (verifier_for : SkillName → Option GroundedTarget → Call Verifier) (names : SubmissionIds)
      (ids : EventIds) (memory : Memory Raw) (o : Orchestrator) (w : W) (log : Log) where
    -- The plan of a step, and what the evidence of the task that it started is of.
    pub record IsPlanned (r : HierarchicalTaskStepResult) : Type 0 where
      pub scope :
          IsInScope lower note_fields_of risk_fields_of fields_of complete r.planning_observation
            memory capabilities.available_skills r.submission_result.planner_output
      pub rests :
          (a : String)
          → str_eq a "" ≡ false
          → contains r.started_task.task_spec.source_evidence_ids a ≡ true
          → (in_any (context_sources r.planning_observation scope.context) a
              || contains (evidence_of_target r.started_task.task_spec.target) a
              || contains (evidence_of_grounding r.submission_result.grounding_result) a)
            ≡ true

    abbrev pub Planned : StepAnswer → Type 0
    Planned (stepped r) = IsPlanned r
    Planned (step_raised x) = Unit

    planned :
        (answer : StepAnswer) (o' : Orchestrator)
        → Promise lower fields_of task_id_for capabilities cortex_planner target_id_for policy rt
            fresh logging skill_for verifier_for names ids memory o w log answer o'
        → Planned answer
    planned (step_raised x) o' h = tt
    planned (stepped r) o' h =
        let p = r.submission_result.planner_output in
        let scope =
          plan-IsInScope lower note_fields_of risk_fields_of fields_of complete
            r.planning_observation memory (some capabilities.available_skills) p
            (returned _ p h.composed.planned) in
        let task = h.composed.task.task_of in
        let claims = map (λ (c : EvidenceBackedClaim). c.evidence_ids) p.current_belief_state in
        let updates =
          map (λ (u : MemoryUpdateRequest). u.evidence_ids) p.memory_updates_requested in
        record {
          scope = scope;
          rests = λ a named held.
              let started = h.started in
              let same =
                ap (λ (t : ScheduledTask). contains t.task_spec.source_evidence_ids a) started in
              let aimed =
                ap (λ (t : ScheduledTask). contains (evidence_of_target t.task_spec.target) a)
                  started in
              ground (
                arith,
                same,
                aimed,
                task.evidence.exact a,
                scope.cites a named,
                in_any-append claims updates a,
              );
        }

    -- A step on the Cortex that returns was planned in scope: the plan is of the context of the observation of the step
    -- and the memory summary. All evidence of the started task, with an ID that is not empty, is of that
    -- observation, of a note of the context, of the task's target or of the grounding.
    pub cortex_step-Planned :
        Planned
          (run_once lower fields_of task_id_for capabilities cortex_planner
            (Grounding.ground target_id_for policy)
            rt
            fresh
            logging
            skill_for
            verifier_for
            names
            ids
            memory
            o
            w
            log).answer
    cortex_step-Planned = planned _ _ (
        run_once-IsComposed lower fields_of task_id_for capabilities cortex_planner target_id_for
          policy rt fresh logging skill_for verifier_for names ids memory o w log)
