-- ===== src/Manager/SkillRunner/Frames.antt =====
-- What the stages of a run leave alone.
use autonomous_game_agent.Prelude.{
  ℕ, String, Bool, not, Option, none, some, [], ◌∷◌, ◌++◌, ◌≡◌, refl, ◌∙◌, length, if_holds,
}
use autonomous_game_agent.Game.Call.{Call, returns, raises}
use autonomous_game_agent.Observation.{Observation, ActionResult}
use autonomous_game_agent.Verifier.Schemas.{VerifierResult}
use autonomous_game_agent.Manager.EventLog.{Log, append_verified_reward, EventRecord}
use autonomous_game_agent.Manager.Reward.{VerifiedRewardBreakdown, derive_verified_reward}
use autonomous_game_agent.Manager.SkillContract.{SkillContract}
use autonomous_game_agent.Manager.SkillRunner.Runtime.{Verifier}
use autonomous_game_agent.Manager.SkillRunner.Locals.{
  Locals, append_action_event, append_verdict_event, append_reward_event, verify,
}

-- The same world, observations, steps and verdict.
pub record Frame {W : Type 0} (l l' : Locals W) : Type 0 where
  pub world : l'.world ≡ l.world
  pub start : l'.start ≡ l.start
  pub latest : l'.latest ≡ l.latest
  pub steps : l'.steps ≡ l.steps
  pub verdict : l'.verdict ≡ l.verdict

module _ (fresh : ℕ → String) (logging : Bool) {W : Type 0} where
  abbrev same : (l : Locals W) → Frame l l
  same l = record { world = refl; start = refl; latest = refl; steps = refl; verdict = refl }

  pub append_action_event-Frame :
      (r : ActionResult) (name : String) (i : ℕ) (before : Observation) (after : Option Observation)
      (l : Locals W)
      → Frame l (append_action_event fresh logging r name i before after l)
  unfolding append_action_event
  append_action_event-Frame r name i before after l =
      if_holds (Frame l) (not logging) (λ h. same l)
        (λ h. record { world = refl; start = refl; latest = refl; steps = refl; verdict = refl })

  append_reward_event-Frame :
      (r : VerifiedRewardBreakdown) (name : String) (e : Option EventRecord) (l : Locals W)
      → Frame l (append_reward_event fresh logging r name e l).1
  unfolding append_reward_event
  append_reward_event-Frame r name none l = same l
  append_reward_event-Frame r name (some e) l =
      at (append_verified_reward fresh r name e.event_id l.log)
    where
      at :
          (o : Option (EventRecord × Log))
          → Frame l
              (elim o as (λ _. Call (Unit {0}) × Locals W) [
                | none ↦ (raises, l)
                | some (r, log') ↦ (
                  returns tt,
                  record l { log = log'; reward_records = l.reward_records ++ r ∷ [] },
                )
              ]).1
      at none = same l
      at (some (x, log')) = record {
        world = refl;
        start = refl;
        latest = refl;
        steps = refl;
        verdict = refl;
      }

  -- `_verify` sets the verdict and leaves the world, the observations and the steps.
  pub record IsVerified (verifier : Verifier) (l l' : Locals W) : Type 0 where
    pub world : l'.world ≡ l.world
    pub start : l'.start ≡ l.start
    pub latest : l'.latest ≡ l.latest
    pub steps : l'.steps ≡ l.steps
    pub verdict : l'.verdict ≡ some (verifier l.start l.latest)

  append_verdict_event-Frame :
      (r : VerifierResult) (name : String) (n : ℕ) (before after : Observation) (l : Locals W)
      → Frame l (append_verdict_event fresh logging r name n before after l).1
  unfolding append_verdict_event
  append_verdict_event-Frame r name n before after l =
      if_holds (λ (x : Option EventRecord × Locals W). Frame l x.1) (not logging) (λ h. same l)
        (λ h. record { world = refl; start = refl; latest = refl; steps = refl; verdict = refl })

  pub verify-IsVerified :
      (verifier : Verifier) (contract : SkillContract) (l : Locals W)
      → IsVerified verifier l (verify fresh logging verifier contract l).1
  unfolding verify
  verify-IsVerified verifier contract l =
      let result : VerifierResult = verifier l.start l.latest in
      let judged : Locals W = record l { verdict = some result } in
      let v : Option EventRecord × Locals W =
        append_verdict_event fresh logging result contract.skill_name (length l.steps) l.start
          l.latest judged in
      let f : Frame judged v.1 =
        append_verdict_event-Frame result contract.skill_name (length l.steps) l.start l.latest
          judged in
      let reward : VerifiedRewardBreakdown =
        derive_verified_reward contract.reward_profile result in
      let paid : Locals W = record (v.1) { breakdowns = l.breakdowns ++ reward ∷ [] } in
      let g : Frame paid (append_reward_event fresh logging reward contract.skill_name v.0 paid).1 =
        append_reward_event-Frame reward contract.skill_name v.0 paid in
      record {
        world = g.world ∙ f.world;
        start = g.start ∙ f.start;
        latest = g.latest ∙ f.latest;
        steps = g.steps ∙ f.steps;
        verdict = g.verdict ∙ f.verdict;
      }
