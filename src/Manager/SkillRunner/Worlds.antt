-- ===== src/Manager/SkillRunner/Worlds.antt =====
-- The steps of a round of src/fh_agent/manager/skill_runner.py that do not touch the world.
use autonomous_game_agent.Prelude.{
  ℕ, String, Bool, Option, none, some, [], ◌∷◌, ◌++◌, ◌≡◌, refl, ◌∙◌,
}
use autonomous_game_agent.Game.Call.{Call, returns, raises}
use autonomous_game_agent.Observation.{Observation, SkillResult, ActionResult}
use autonomous_game_agent.Verifier.Schemas.{VerifierResult}
use autonomous_game_agent.Manager.Task.{ManagerStopResult}
use autonomous_game_agent.Manager.SkillContract.{RunnableSkill, merged_evidence_ids}
use autonomous_game_agent.Manager.SkillRunner.Runtime.{Runtime, Verifier}
use autonomous_game_agent.Manager.SkillRunner.Results.{
  terminal_result, manager_stop_for_blocked_action, blocked_text, last_id,
}
use autonomous_game_agent.Manager.SkillRunner.Locals.{
  Locals, Round, finished, continues, crash, finish, stop_run, append_action_event, verify,
}
use autonomous_game_agent.Manager.SkillRunner.Frames.{
  Frame, append_action_event-Frame, verify-IsVerified,
}
use autonomous_game_agent.Manager.SkillRunner.Run.{conclude, after_seen, link_before, after_blocked}
use autonomous_game_agent.Manager.SkillRunner.Growth.{world_of}

module _ {W : Type 0} (rt : Runtime W) (fresh : ℕ → String) (logging : Bool) (skill : RunnableSkill)
    (verifier : Verifier) where
  conclude-world :
      (result : VerifierResult) (l : Locals W)
      → world_of (conclude rt fresh logging skill verifier result l) ≡ l.world
  unfolding conclude finish
  conclude-world result l = at (terminal_result skill.contract l.start l.latest result)
    where
      at :
          (t : Call (Option SkillResult))
          → world_of (elim t as (λ _. Round W) [
            | raises ↦ finished (crash l)
            | returns none ↦ continues l
            | returns (some r) ↦ finished (finish fresh logging r none none l)
          ])
            ≡ l.world
      at raises = refl
      at (returns none) = refl
      at (returns (some x)) = refl

  pub after_seen-world :
      (r : ActionResult) (i : ℕ) (o : Observation) (l : Locals W)
      → world_of (after_seen rt fresh logging skill verifier r i o l) ≡ l.world
  unfolding after_seen
  after_seen-world r i o l = at (verify fresh logging verifier skill.contract renewed).0
    where
      linked : ActionResult
      linked = record r { evidence_ids = merged_evidence_ids (l.latest ∷ o ∷ []) }

      noted : Locals W
      noted = record l { action_results = l.action_results ++ linked ∷ [] }

      logged : Locals W
      logged =
          append_action_event fresh logging linked skill.contract.skill_name i l.latest (some o)
            noted

      renewed : Locals W
      renewed = record logged { latest = record o { last_action_result = some linked } }

      f : Frame noted logged
      f =
          append_action_event-Frame fresh logging linked skill.contract.skill_name i l.latest
            (some o) noted

      l' : Locals W
      l' = (verify fresh logging verifier skill.contract renewed).1

      kept : l'.world ≡ l.world
      kept = (verify-IsVerified fresh logging verifier skill.contract renewed).world ∙ f.world

      at :
          (t : Call (Unit {0}))
          → world_of (elim t as (λ _. Round W) [
            | raises ↦ finished (crash l')
            | returns _ ↦
                conclude rt fresh logging skill verifier (verifier renewed.start renewed.latest) l'
          ])
            ≡ l.world
      at raises = kept
      at (returns _) = conclude-world (verifier renewed.start renewed.latest) l' ∙ kept

  pub link_before-world :
      (r : ActionResult) (i : ℕ) (l : Locals W)
      → (link_before rt fresh logging skill verifier r i l).1.world ≡ l.world
  unfolding link_before
  link_before-world r i l =
      (append_action_event-Frame fresh logging (record r { evidence_ids = l.latest.evidence_ids })
        skill.contract.skill_name i l.latest none
        (record l {
          action_results =
              l.action_results ++ record r { evidence_ids = l.latest.evidence_ids } ∷ [];
        })).world

  pub after_blocked-world :
      (r : ActionResult) (i : ℕ) (l : Locals W)
      → world_of (after_blocked rt fresh logging skill verifier r i l) ≡ l.world
  unfolding after_blocked stop_run finish
  after_blocked-world r i l = at (
      manager_stop_for_blocked_action (link_before rt fresh logging skill verifier r i l).0
        (last_id l'.action_records))
    where
      l' : Locals W
      l' = (link_before rt fresh logging skill verifier r i l).1

      at :
          (t : Call (Option ManagerStopResult))
          → world_of (elim t as (λ _. Round W) [
            | raises ↦ finished (crash l')
            | returns stop ↦
                finished
                  (stop_run fresh logging skill.contract (blocked_text r.blocked_reason) stop l')
          ])
            ≡ l.world
      at raises = link_before-world r i l
      at (returns stop) = link_before-world r i l
