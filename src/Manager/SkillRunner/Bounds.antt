-- ===== src/Manager/SkillRunner/Bounds.antt =====
-- What the result of a run may claim, and how many steps it took: the loop and the whole run.
use autonomous_game_agent.Prelude.{
  ℕ, zero, suc, ◌+◌, ◌≤◌, String, Bool, not, [], ◌≡◌, refl, arith, length, if_holds, if◌then◌else◌,
}
use autonomous_game_agent.Game.Call.{Call, returns, raises}
use autonomous_game_agent.Observation.{blank}
use autonomous_game_agent.Manager.EventLog.{Log}
use autonomous_game_agent.Manager.SkillContract.{RunnableSkill}
use autonomous_game_agent.Manager.SkillRunner.Runtime.{
  Runtime, Sight, seen, exhausted, broken, Verifier,
}
use autonomous_game_agent.Manager.SkillRunner.Results.{SkillRunResult}
use autonomous_game_agent.Manager.SkillRunner.Locals.{Locals, Outcome, Round, finished, continues}
use autonomous_game_agent.Manager.SkillRunner.Run.{
  round, loop, run, unstarted, refusal, fresh_locals,
}
use autonomous_game_agent.Manager.SkillRunner.Authority.{round-Sound}
use autonomous_game_agent.Manager.SkillRunner.Sound.{
  Justified, Judged, Sound, RoundSound, stop_run-Sound,
}

-- A returned result with at most `n` steps, whose success is justified and whose verdict is the verifier's.
pub record IsSoundWithin (verifier : Verifier) (n : ℕ) (r : SkillRunResult) : Type 0 where
  pub bounded : length r.steps ≤ n
  pub justified : Justified r.skill_result r.verifier_result r.manager_stop_result
  pub judged : Judged verifier r.verifier_result

abbrev pub SoundWithin : Verifier → ℕ → Call SkillRunResult → Type 0
SoundWithin verifier n raises = Unit
SoundWithin verifier n (returns r) = IsSoundWithin verifier n r

Sound-within :
    (verifier : Verifier) (k n : ℕ) (c : Call SkillRunResult)
    → k ≤ n
    → Sound verifier k c
    → SoundWithin verifier n c
Sound-within verifier k n raises h s = tt
Sound-within verifier k n (returns r) h s =
    let c : length r.steps ≡ k = s.counted in
    record { bounded = omega arith; justified = s.justified; judged = s.judged }

widen :
    (verifier : Verifier) (k n : ℕ) (c : Call SkillRunResult)
    → k ≤ n
    → SoundWithin verifier k c
    → SoundWithin verifier n c
widen verifier k n raises h s = tt
widen verifier k n (returns r) h s =
    let c : length r.steps ≤ k = s.bounded in
    record { bounded = omega arith; justified = s.justified; judged = s.judged }

module _ {W : Type 0} (rt : Runtime W) (fresh : ℕ → String) (logging : Bool) (skill : RunnableSkill)
    (verifier : Verifier) where
  loop-Sound :
      (left i : ℕ) (l : Locals W)
      → Judged verifier l.verdict
      → SoundWithin verifier
          (left + length l.steps)
          (loop rt fresh logging skill verifier left i l).answer
  unfolding loop
  loop-Sound zero i l j =
      Sound-within verifier (length l.steps) (0 + length l.steps)
        (loop rt fresh logging skill verifier 0 i l).answer (omega arith)
        (stop_run-Sound fresh logging verifier skill.contract "timeout" _ l (length l.steps) refl j)
  loop-Sound (suc left) i l j =
      at (round rt fresh logging skill verifier i l)
        (round-Sound rt fresh logging skill verifier i l j) (λ l' k. loop-Sound left (suc i) l' k)
    where
      at :
          (r : Round W)
          → RoundSound verifier (suc (length l.steps)) r
          → ((l' : Locals W)
              → Judged verifier l'.verdict
              → SoundWithin verifier
                  (left + length l'.steps)
                  (loop rt fresh logging skill verifier left (suc i) l').answer)
          → SoundWithin verifier
              (suc left + length l.steps)
              (elim r as (λ _. Outcome W) [
                | finished o ↦ o
                | continues l' ↦ loop rt fresh logging skill verifier left (suc i) l'
              ]).answer
      at (finished o) s ih =
          Sound-within verifier (suc (length l.steps)) (suc left + length l.steps) o.answer
            (omega arith) s
      at (continues l') s ih =
          widen verifier (left + length l'.steps) (suc left + length l.steps)
            (loop rt fresh logging skill verifier left (suc i) l').answer (omega (arith, s.0))
            (ih l' s.1)

  -- A run of a skill raises, or returns a result that has at most `max_steps` steps and that reports
  -- success only with a verdict of success, whose evidence it takes, and with no stop of the Manager; its
  -- verdict, if any, is what the verifier answers to two observations.
  pub run_claims_only_verified_success :
      (w : W) (log : Log)
      → SoundWithin verifier skill.contract.max_steps
          (run rt fresh logging skill verifier w log).answer
  unfolding run
  run_claims_only_verified_success w log = at (rt.observe w).0
    where
      w' : W
      w' = (rt.observe w).1

      at :
          (t : Sight)
          → SoundWithin verifier skill.contract.max_steps
              (elim t as (λ _. Outcome W) [
                | broken ↦ record { answer = raises; world = w'; log = log }
                | exhausted ↦
                    unstarted rt fresh logging skill verifier
                      (refusal rt fresh logging skill verifier "empty_observation_sequence" [])
                      (blank "")
                      w'
                      log
                | seen start ↦
                    if not (skill.can_start start)
                    then unstarted rt fresh logging skill verifier
                        (refusal rt fresh logging skill verifier "precondition_failed"
                          start.evidence_ids)
                        start
                        w'
                        log
                    else loop rt fresh logging skill verifier skill.contract.max_steps 0
                        (fresh_locals rt fresh logging skill verifier start w' log)
              ]).answer
      at broken = tt
      at exhausted = record { bounded = omega arith; justified = λ e. cc; judged = tt }
      at (seen start) =
          if_holds (λ (o : Outcome W). SoundWithin verifier skill.contract.max_steps o.answer)
            (not (skill.can_start start))
            (λ h. record { bounded = omega arith; justified = λ e. cc; judged = tt })
            (λ h.
              widen verifier (skill.contract.max_steps + 0) skill.contract.max_steps _ (omega arith)
                (loop-Sound skill.contract.max_steps 0 _ tt))
