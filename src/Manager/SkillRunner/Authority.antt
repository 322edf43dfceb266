-- ===== src/Manager/SkillRunner/Authority.antt =====
-- What the result of a run may claim: the stages of one round of the loop.
use mathlib.Core.Path.{subst}
use autonomous_game_agent.Prelude.{
  ℕ, suc, String, Bool, false, not, Option, none, some, [], ◌∷◌, ◌++◌, ◌≡◌, refl, ◌∙◌, sym, ap,
  arith, length, length-append, if_holds, if◌then◌else◌,
}
use autonomous_game_agent.Body.Actions.{PrimitiveAction, action_in}
use autonomous_game_agent.Game.Call.{Call, returns, raises}
use autonomous_game_agent.Observation.{Observation, ActionResult, SkillResult}
use autonomous_game_agent.Verifier.Schemas.{VerifierResult}
use autonomous_game_agent.Manager.Task.{ManagerStopResult}
use autonomous_game_agent.Manager.SkillContract.{RunnableSkill, merged_evidence_ids}
use autonomous_game_agent.Manager.SkillRunner.Runtime.{
  Runtime, Sight, seen, exhausted, broken, Verifier,
}
use autonomous_game_agent.Manager.SkillRunner.Results.{
  legacy_result, terminal_result, manager_stop_for_blocked_action, blocked_text, last_id,
}
use autonomous_game_agent.Manager.SkillRunner.Locals.{
  Locals, Round, finished, continues, crash, append_action_event, finish, stop_run, verify,
}
use autonomous_game_agent.Manager.SkillRunner.Frames.{
  Frame, IsVerified, append_action_event-Frame, verify-IsVerified,
}
use autonomous_game_agent.Manager.SkillRunner.Run.{
  conclude, after_seen, link_before, after_executed, after_blocked, act, round,
}
-- A claim of success rests on a verdict of success that the run returns, with the evidence of that
use autonomous_game_agent.Manager.SkillRunner.Sound.{
  Judged, RoundSound, finish-Sound, stop_run-Sound, terminal_success,
}

module _ {W : Type 0} (rt : Runtime W) (fresh : ℕ → String) (logging : Bool) (skill : RunnableSkill)
    (verifier : Verifier) where
  conclude-Sound :
      (result : VerifierResult) (l : Locals W) (n : ℕ)
      → length l.steps ≡ n
      → l.verdict ≡ some result
      → Judged verifier l.verdict
      → RoundSound verifier n (conclude rt fresh logging skill verifier result l)
  unfolding conclude
  conclude-Sound result l n h v j = at (terminal_result skill.contract l.start l.latest result) refl
    where
      at :
          (t : Call (Option SkillResult))
          → terminal_result skill.contract l.start l.latest result ≡ t
          → RoundSound verifier n (elim t as (λ _. Round W) [
            | raises ↦ finished (crash l)
            | returns none ↦ continues l
            | returns (some r) ↦ finished (finish fresh logging r none none l)
          ])
      at raises e = tt
      at (returns none) e = (h, j)
      at (returns (some x)) e =
          finish-Sound fresh logging verifier x none none l n h
            (λ s.
              let w = terminal_success skill.contract l.start l.latest result x e s in
              (result, v, w.0, w.1, refl))
            j

  after_seen-Sound :
      (r : ActionResult) (i : ℕ) (o : Observation) (l : Locals W) (n : ℕ)
      → length l.steps ≡ n
      → Judged verifier l.verdict
      → RoundSound verifier n (after_seen rt fresh logging skill verifier r i o l)
  unfolding after_seen
  after_seen-Sound r i o l n h j = at (verify fresh logging verifier skill.contract renewed).0
    where
      linked : ActionResult
      linked = record r { evidence_ids = merged_evidence_ids (l.latest ∷ o ∷ []) }

      noted : Locals W
      noted = record l { action_results = l.action_results ++ linked ∷ [] }

      logged : Locals W
      logged =
          append_action_event fresh logging linked skill.contract.skill_name i l.latest (some o)
            noted

      renewed : Locals W
      renewed = record logged { latest = record o { last_action_result = some linked } }

      f : Frame noted logged
      f =
          append_action_event-Frame fresh logging linked skill.contract.skill_name i l.latest
            (some o) noted

      v :
          IsVerified fresh logging verifier renewed
            (verify fresh logging verifier skill.contract renewed).1
      v = verify-IsVerified fresh logging verifier skill.contract renewed

      at :
          (t : Call (Unit {0}))
          → RoundSound verifier n (elim t as (λ _. Round W) [
            | raises ↦ finished (crash (verify fresh logging verifier skill.contract renewed).1)
            | returns _ ↦
                conclude rt fresh logging skill verifier
                  (verifier renewed.start renewed.latest)
                  (verify fresh logging verifier skill.contract renewed).1
          ])
      at raises = tt
      at (returns _) =
          conclude-Sound (verifier renewed.start renewed.latest)
            (verify fresh logging verifier skill.contract renewed).1 n
            (ap length (v.steps ∙ f.steps) ∙ h) v.verdict
            (subst (Judged verifier) (sym v.verdict) (renewed.start, renewed.latest, refl))

  abbrev linked_before : ActionResult → Locals W → Locals W
  linked_before r l = record l {
    action_results = l.action_results ++ record r { evidence_ids = l.latest.evidence_ids } ∷ [];
  }

  link_before-Frame :
      (r : ActionResult) (i : ℕ) (l : Locals W)
      → Frame (linked_before r l) (link_before rt fresh logging skill verifier r i l).1
  unfolding link_before
  link_before-Frame r i l =
      append_action_event-Frame fresh logging (record r { evidence_ids = l.latest.evidence_ids })
        skill.contract.skill_name i l.latest none (linked_before r l)

  after_executed-Sound :
      (r : ActionResult) (i : ℕ) (l : Locals W) (n : ℕ)
      → length l.steps ≡ n
      → Judged verifier l.verdict
      → RoundSound verifier n (after_executed rt fresh logging skill verifier r i l)
  unfolding after_executed
  after_executed-Sound r i l n h j = at (rt.observe l.world).0
    where
      moved : Locals W
      moved = record l { world = (rt.observe l.world).1 }

      at :
          (t : Sight)
          → RoundSound verifier n (elim t as (λ _. Round W) [
            | broken ↦ finished (crash moved)
            | exhausted ↦
                let (linked, l') = link_before rt fresh logging skill verifier r i moved in
                finished (
                  finish fresh logging
                    (legacy_result skill.contract l'.start l'.latest false
                      (some "observation_sequence_exhausted")
                      none)
                    none
                    none
                    l')
            | seen o ↦ after_seen rt fresh logging skill verifier r i o moved
          ])
      at broken = tt
      at exhausted =
          finish-Sound fresh logging verifier _ none none
            (link_before rt fresh logging skill verifier r i moved).1 n
            (ap length (link_before-Frame r i moved).steps ∙ h) (unfold legacy_result in λ s. cc)
            (subst (Judged verifier) (sym (link_before-Frame r i moved).verdict) j)
      at (seen o) = after_seen-Sound r i o moved n h j

  after_blocked-Sound :
      (r : ActionResult) (i : ℕ) (l : Locals W) (n : ℕ)
      → length l.steps ≡ n
      → Judged verifier l.verdict
      → RoundSound verifier n (after_blocked rt fresh logging skill verifier r i l)
  unfolding after_blocked
  after_blocked-Sound r i l n h j =
      at (manager_stop_for_blocked_action linked (last_id l'.action_records))
    where
      linked : ActionResult
      linked = (link_before rt fresh logging skill verifier r i l).0

      l' : Locals W
      l' = (link_before rt fresh logging skill verifier r i l).1

      at :
          (t : Call (Option ManagerStopResult))
          → RoundSound verifier n (elim t as (λ _. Round W) [
            | raises ↦ finished (crash l')
            | returns stop ↦
                finished
                  (stop_run fresh logging skill.contract (blocked_text r.blocked_reason) stop l')
          ])
      at raises = tt
      at (returns stop) =
          stop_run-Sound fresh logging verifier skill.contract (blocked_text r.blocked_reason) stop
            l' n (ap length (link_before-Frame r i l).steps ∙ h)
            (subst (Judged verifier) (sym (link_before-Frame r i l).verdict) j)

  act-Sound :
      (a : PrimitiveAction) (i : ℕ) (l : Locals W) (n : ℕ)
      → length l.steps ≡ n
      → Judged verifier l.verdict
      → RoundSound verifier n (act rt fresh logging skill verifier a i l)
  unfolding act
  act-Sound a i l n h j = at (rt.execute a l.world).0
    where
      moved : Locals W
      moved = record l { world = (rt.execute a l.world).1 }

      at :
          (t : Call ActionResult)
          → RoundSound verifier n (elim t as (λ _. Round W) [
            | raises ↦ finished (crash moved)
            | returns r ↦
                if r.executed
                then after_executed rt fresh logging skill verifier r i moved
                else after_blocked rt fresh logging skill verifier r i moved
          ])
      at raises = tt
      at (returns r) =
          if_holds (RoundSound verifier n) r.executed (λ k. after_executed-Sound r i moved n h j)
            (λ k. after_blocked-Sound r i moved n h j)

  pub round-Sound :
      (i : ℕ) (l : Locals W)
      → Judged verifier l.verdict
      → RoundSound verifier (suc (length l.steps)) (round rt fresh logging skill verifier i l)
  unfolding round
  round-Sound i l j =
      if_holds (RoundSound verifier (suc (length l.steps)))
        (not (action_in (skill.next_action l.latest i).action skill.contract.allowed_actions))
        (λ h.
          stop_run-Sound fresh logging verifier skill.contract "action_not_allowed" _ proposed _
            grown j)
        (λ h.
          act-Sound (skill.next_action l.latest i).action i proposed (suc (length l.steps)) grown j)
    where
      proposed : Locals W
      proposed = record l { steps = l.steps ++ skill.next_action l.latest i ∷ [] }

      grown : length proposed.steps ≡ suc (length l.steps)
      grown = omega (arith, length-append l.steps (skill.next_action l.latest i ∷ []))
