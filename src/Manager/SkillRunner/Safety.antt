-- ===== src/Manager/SkillRunner/Safety.antt =====
-- Which primitive inputs a run of a skill sends.
use autonomous_game_agent.Prelude.{
  ℕ, zero, suc, String, Bool, true, false, not, none, some, List, [], ◌∷◌, ◌++◌, ◌≡◌, refl, ◌∙◌,
  sym, ap, arith, if_holds, if◌then◌else◌, ◌⊎◌, inl, inr,
}
use autonomous_game_agent.Body.Actions.{PrimitiveAction, action_in}
use autonomous_game_agent.Game.Call.{Call, returns, raises}
use autonomous_game_agent.Observation.{ActionResult, blank}
use autonomous_game_agent.Manager.EventLog.{Log}
use autonomous_game_agent.Manager.SkillContract.{RunnableSkill}
use autonomous_game_agent.Manager.SkillRunner.Runtime.{
  Runtime, IsGuarded, Sight, seen, exhausted, broken, Verifier,
}
use autonomous_game_agent.Manager.SkillRunner.Results.{legacy_result}
use autonomous_game_agent.Manager.SkillRunner.Locals.{
  Locals, Outcome, Round, finished, continues, crash, finish, stop_run,
}
use autonomous_game_agent.Manager.SkillRunner.Run.{
  after_seen, link_before, after_executed, after_blocked, act, round, loop, run, unstarted, refusal,
  fresh_locals,
}
use autonomous_game_agent.Manager.SkillRunner.Growth.{
  Grew, Grew-none, Grew-one, Grew-join, widen, allowed_of, world_of,
}
use autonomous_game_agent.Manager.SkillRunner.Worlds.{
  after_seen-world, link_before-world, after_blocked-world,
}

module _ {W : Type 0} (rt : Runtime W) (fresh : ℕ → String) (logging : Bool) (skill : RunnableSkill)
    (verifier : Verifier) (inputs : W → List PrimitiveAction) (g : IsGuarded rt inputs) where
  after_executed-inputs :
      (r : ActionResult) (i : ℕ) (l : Locals W)
      → inputs (world_of (after_executed rt fresh logging skill verifier r i l)) ≡ inputs l.world
  unfolding after_executed finish
  after_executed-inputs r i l = at (rt.observe l.world).0 ∙ g.observe_sends_nothing l.world
    where
      moved : Locals W
      moved = record l { world = (rt.observe l.world).1 }

      at :
          (t : Sight)
          → inputs (
              world_of (elim t as (λ _. Round W) [
                | broken ↦ finished (crash moved)
                | exhausted ↦
                    let (linked, l') = link_before rt fresh logging skill verifier r i moved in
                    finished (
                      finish fresh logging
                        (legacy_result skill.contract l'.start l'.latest false
                          (some "observation_sequence_exhausted")
                          none)
                        none
                        none
                        l')
                | seen o ↦ after_seen rt fresh logging skill verifier r i o moved
              ]))
            ≡ inputs moved.world
      at broken = refl
      at exhausted = ap inputs (link_before-world rt fresh logging skill verifier r i moved)
      at (seen o) = ap inputs (after_seen-world rt fresh logging skill verifier r i o moved)

  act-Grew :
      (a : PrimitiveAction) (i : ℕ) (l : Locals W)
      → action_in a skill.contract.allowed_actions ≡ true
      → Grew skill.contract.allowed_actions 1
          (inputs l.world)
          (inputs (world_of (act rt fresh logging skill verifier a i l)))
  unfolding act
  act-Grew a i l h = Grew-one a h (at (rt.execute a l.world).0 (g.execute_sends_own a l.world))
    where
      moved : Locals W
      moved = record l { world = (rt.execute a l.world).1 }

      Sends : W → Type 0
      Sends w = (inputs w ≡ inputs l.world) ⊎ (inputs w ≡ inputs l.world ++ a ∷ [])

      carry : (w : W) → inputs w ≡ inputs moved.world → Sends moved.world → Sends w
      carry w e (inl k) = inl (e ∙ k)
      carry w e (inr k) = inr (e ∙ k)

      at :
          (t : Call ActionResult)
          → Sends moved.world
          → Sends (
              world_of (elim t as (λ _. Round W) [
                | raises ↦ finished (crash moved)
                | returns r ↦
                    if r.executed
                    then after_executed rt fresh logging skill verifier r i moved
                    else after_blocked rt fresh logging skill verifier r i moved
              ]))
      at raises s = s
      at (returns r) s =
          if_holds (λ x. Sends (world_of x)) r.executed
            (λ k. carry _ (after_executed-inputs r i moved) s)
            (λ k.
              carry _ (ap inputs (after_blocked-world rt fresh logging skill verifier r i moved)) s)

  round-Grew :
      (i : ℕ) (l : Locals W)
      → Grew skill.contract.allowed_actions 1
          (inputs l.world)
          (inputs (world_of (round rt fresh logging skill verifier i l)))
  unfolding round stop_run finish
  round-Grew i l =
      if_holds (λ x. Grew skill.contract.allowed_actions 1 (inputs l.world) (inputs (world_of x)))
        (not (action_in (skill.next_action l.latest i).action skill.contract.allowed_actions))
        (λ h. Grew-none 1 refl)
        (λ h.
          act-Grew (skill.next_action l.latest i).action i
            (record l { steps = l.steps ++ skill.next_action l.latest i ∷ [] }) (allowed_of _ h))

  loop-Grew :
      (left i : ℕ) (l : Locals W)
      → Grew skill.contract.allowed_actions left
          (inputs l.world)
          (inputs (loop rt fresh logging skill verifier left i l).world)
  unfolding loop stop_run finish
  loop-Grew zero i l = Grew-none 0 refl
  loop-Grew (suc left) i l =
      at (round rt fresh logging skill verifier i l) (round-Grew i l)
        (λ l'. loop-Grew left (suc i) l')
    where
      at :
          (r : Round W)
          → Grew skill.contract.allowed_actions 1 (inputs l.world) (inputs (world_of r))
          → ((l' : Locals W)
              → Grew skill.contract.allowed_actions left
                  (inputs l'.world)
                  (inputs (loop rt fresh logging skill verifier left (suc i) l').world))
          → Grew skill.contract.allowed_actions (suc left) (inputs l.world) (
              inputs
                (elim r as (λ _. Outcome W) [
                  | finished o ↦ o
                  | continues l' ↦ loop rt fresh logging skill verifier left (suc i) l'
                ]).world)
      at (finished o) s ih = widen 1 (suc left) (omega arith) s
      at (continues l') s ih = Grew-join 1 left (suc left) (omega arith) s (ih l')

  -- Where looking sends nothing and each call of the executor sends its own action or nothing, the
  -- inputs that a run adds are all in the contract's `allowed_actions`, and at most `max_steps` of
  -- them; this holds of a run that raises as well.
  pub run_sends_only_allowed :
      (w : W) (log : Log)
      → Grew skill.contract.allowed_actions skill.contract.max_steps
          (inputs w)
          (inputs (run rt fresh logging skill verifier w log).world)
  unfolding run finish
  run_sends_only_allowed w log = rw (sym (g.observe_sends_nothing w)) (at (rt.observe w).0)
    where
      w' : W
      w' = (rt.observe w).1

      at :
          (t : Sight)
          → Grew skill.contract.allowed_actions skill.contract.max_steps (inputs w') (
              inputs
                (elim t as (λ _. Outcome W) [
                  | broken ↦ record { answer = raises; world = w'; log = log }
                  | exhausted ↦
                      unstarted rt fresh logging skill verifier
                        (refusal rt fresh logging skill verifier "empty_observation_sequence" [])
                        (blank "")
                        w'
                        log
                  | seen start ↦
                      if not (skill.can_start start)
                      then unstarted rt fresh logging skill verifier
                          (refusal rt fresh logging skill verifier "precondition_failed"
                            start.evidence_ids)
                          start
                          w'
                          log
                      else loop rt fresh logging skill verifier skill.contract.max_steps 0
                          (fresh_locals rt fresh logging skill verifier start w' log)
                ]).world)
      at broken = Grew-none skill.contract.max_steps refl
      at exhausted = Grew-none skill.contract.max_steps refl
      at (seen start) =
          if_holds
            (λ (o : Outcome W).
              Grew skill.contract.allowed_actions skill.contract.max_steps (inputs w')
                (inputs o.world))
            (not (skill.can_start start)) (λ h. Grew-none skill.contract.max_steps refl)
            (λ h.
              loop-Grew skill.contract.max_steps 0
                (fresh_locals rt fresh logging skill verifier start w' log))
