-- ===== src/Manager/SkillRunner/Run.antt =====
-- `SkillRunner.run`. A run returns or raises, and leaves the world and the log behind.
use autonomous_game_agent.Prelude.{
  ℕ, zero, suc, String, Bool, false, not, none, some, List, [], ◌∷◌, ◌++◌, if◌then◌else◌,
}
use autonomous_game_agent.Body.Actions.{PrimitiveAction, action_in}
use autonomous_game_agent.Game.Call.{returns, raises}
use autonomous_game_agent.Observation.{Observation, ActionResult, SkillResult, blank}
use autonomous_game_agent.Verifier.Schemas.{FailureKind, VerifierResult}
use autonomous_game_agent.Manager.Task.{ManagerStopResult}
use autonomous_game_agent.Manager.EventLog.{Log}
use autonomous_game_agent.Manager.SkillContract.{RunnableSkill, merged_evidence_ids}
use autonomous_game_agent.Manager.SkillRunner.Runtime.{Runtime, seen, exhausted, broken, Verifier}
use autonomous_game_agent.Manager.SkillRunner.Results.{
  legacy_result, terminal_result, manager_stop_for_blocked_action, blocked_text, last_id,
}
use autonomous_game_agent.Manager.SkillRunner.Locals.{
  Locals, Outcome, Round, finished, continues, crash, append_action_event, finish, stop_run, verify,
}

module _ {W : Type 0} (rt : Runtime W) (fresh : ℕ → String) (logging : Bool) (skill : RunnableSkill)
    (verifier : Verifier) where
  -- the end of a round whose verdict is in: finish, or go on
  unfoldable pub conclude : VerifierResult → Locals W → Round W
  conclude result l = elim (terminal_result skill.contract l.start l.latest result) [
    | raises ↦ finished (crash l)
    | returns none ↦ continues l
    | returns (some r) ↦ finished (finish fresh logging r none none l)
  ]

  -- the action was executed and the screen after it was seen
  unfoldable pub after_seen : ActionResult → ℕ → Observation → Locals W → Round W
  unfolding conclude verify append_action_event
  after_seen r step_index source_after l =
      let linked : ActionResult = record r {
        evidence_ids = merged_evidence_ids (l.latest ∷ source_after ∷ []);
      } in
      let noted = record l { action_results = l.action_results ++ linked ∷ [] } in
      let logged : Locals W =
        append_action_event fresh logging linked skill.contract.skill_name step_index l.latest
          (some source_after) noted in
      let renewed : Locals W = record logged {
        latest = record source_after { last_action_result = some linked };
      } in
      let (verified, l') = verify fresh logging verifier skill.contract renewed in
      elim verified [
        | raises ↦ finished (crash l')
        | returns _ ↦ conclude (verifier renewed.start renewed.latest) l'
      ]

  -- the action result linked to the evidence before it, with its event
  unfoldable pub link_before : ActionResult → ℕ → Locals W → ActionResult × Locals W
  unfolding append_action_event
  link_before r step_index l =
      let linked : ActionResult = record r { evidence_ids = l.latest.evidence_ids } in
      let noted = record l { action_results = l.action_results ++ linked ∷ [] } in
      (
        linked,
        append_action_event fresh logging linked skill.contract.skill_name step_index l.latest none
            noted,
      )

  -- the action was executed: look again
  unfoldable pub after_executed : ActionResult → ℕ → Locals W → Round W
  unfolding after_seen link_before
  after_executed r step_index l =
      let (sight, w) = rt.observe l.world in
      let moved = record l { world = w } in
      elim sight [
        | broken ↦ finished (crash moved)
        | exhausted ↦
            let (linked, l') = link_before r step_index moved in
            finished (
              finish fresh logging
                (legacy_result skill.contract l'.start l'.latest false
                  (some "observation_sequence_exhausted") none)
                none none l')
        | seen o ↦ after_seen r step_index o moved
      ]

  -- the action was blocked: stop
  unfoldable pub after_blocked : ActionResult → ℕ → Locals W → Round W
  unfolding link_before stop_run
  after_blocked r step_index l =
      let (linked, l') = link_before r step_index l in
      elim (manager_stop_for_blocked_action linked (last_id l'.action_records)) [
        | raises ↦ finished (crash l')
        | returns stop ↦
            finished (stop_run fresh logging skill.contract (blocked_text r.blocked_reason) stop l')
      ]

  -- the call of the input executor
  unfoldable pub act : PrimitiveAction → ℕ → Locals W → Round W
  unfolding after_executed after_blocked
  act a step_index l =
      let (answer, w) = rt.execute a l.world in
      let moved = record l { world = w } in
      elim answer [
        | raises ↦ finished (crash moved)
        | returns r ↦
            if r.executed
            then after_executed r step_index moved
            else after_blocked r step_index moved
      ]

  abbrev rejection : Observation → ManagerStopResult
  rejection before = record {
    failure_kind = FailureKind.capability_rejected;
    reason = "action_not_allowed";
    evidence_ids = before.evidence_ids;
    trigger_event_id = none;
  }

  -- the body of the loop
  unfoldable pub round : ℕ → Locals W → Round W
  unfolding act stop_run
  round step_index l =
      let step = skill.next_action l.latest step_index in
      let proposed = record l { steps = l.steps ++ step ∷ [] } in
      if not (action_in step.action skill.contract.allowed_actions)
      then finished (
          stop_run fresh logging skill.contract "action_not_allowed" (some (rejection l.latest))
            proposed)
      else act step.action step_index proposed

  abbrev time_over : Observation → ManagerStopResult
  time_over latest = record {
    failure_kind = FailureKind.timeout;
    reason = "timeout";
    evidence_ids = latest.evidence_ids;
    trigger_event_id = none;
  }

  -- `for step_index in range(max_steps)`, with the rounds left and the index
  unfoldable pub loop : ℕ → ℕ → Locals W → Outcome W
  unfolding round stop_run
  loop zero step_index l =
      stop_run fresh logging skill.contract "timeout" (some (time_over l.latest)) l
  loop (suc left) step_index l = elim (round step_index l) [
    | finished o ↦ o
    | continues l' ↦ loop left (suc step_index) l'
  ]

  abbrev pub fresh_locals : Observation → W → Log → Locals W
  fresh_locals start w log = record {
    world = w;
    log = log;
    start = start;
    latest = start;
    verdict = none;
    steps = [];
    verifier_records = [];
    breakdowns = [];
    reward_records = [];
    action_results = [];
    action_records = [];
  }

  abbrev pub refusal : String → List String → SkillResult
  refusal reason ids = record {
    skill_name = skill.contract.skill_name;
    success = false;
    evidence_ids = ids;
    failure_reason = some reason;
  }

  -- a run that ends before its first step; the result reads nothing of the observation
  abbrev pub unstarted : SkillResult → Observation → W → Log → Outcome W
  unstarted r o w log = finish fresh logging r none none (fresh_locals o w log)

  unfoldable pub run : W → Log → Outcome W
  unfolding loop finish
  run w log =
      let (sight, w') = rt.observe w in
      elim sight [
        | broken ↦ record { answer = raises; world = w'; log = log }
        | exhausted ↦ unstarted (refusal "empty_observation_sequence" []) (blank "") w' log
        | seen start ↦
            if not (skill.can_start start)
            then unstarted (refusal "precondition_failed" start.evidence_ids) start w' log
            else loop skill.contract.max_steps 0 (fresh_locals start w' log)
      ]
