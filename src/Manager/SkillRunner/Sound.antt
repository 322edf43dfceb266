-- ===== src/Manager/SkillRunner/Sound.antt =====
-- What a result of a run of src/fh_agent/manager/skill_runner.py may claim, and the ends of a run.
use autonomous_game_agent.Prelude.{ℕ, String, Bool, true, Option, none, some, ◌≡◌, arith, length}
use autonomous_game_agent.Game.Call.{Call, returns, raises}
use autonomous_game_agent.Observation.{Observation, SkillResult}
use autonomous_game_agent.Verifier.Schemas.{VerifierStatus, VerifierResult}
use autonomous_game_agent.Manager.Task.{ManagerStopResult}
use autonomous_game_agent.Manager.EventLog.{EventRecord}
use autonomous_game_agent.Manager.SkillContract.{SkillContract}
use autonomous_game_agent.Manager.SkillRunner.Runtime.{Verifier}
use autonomous_game_agent.Manager.SkillRunner.Results.{SkillRunResult, terminal_result}
use autonomous_game_agent.Manager.SkillRunner.Locals.{
  Locals, Round, finished, continues, finish, stop_run,
}

-- A claim of success rests on a verdict of success that the run returns, with the evidence of that

-- verdict, and not on a run that the Manager stopped.
abbrev pub Justified : SkillResult → Option VerifierResult → Option ManagerStopResult → Type 0
Justified result verdict stop =
    result.success ≡ true
    → (v : VerifierResult) × (verdict ≡ some v)
      × (v.status ≡ VerifierStatus.success)
      × (result.evidence_ids ≡ v.evidence_ids)
      × (stop ≡ none)

-- A verdict is the verifier's on two observations.
abbrev pub Judged : Verifier → Option VerifierResult → Type 0
Judged verifier none = Unit
Judged verifier (some r) =
    (before : Observation) × (after : Observation) × (r ≡ verifier before after)

-- A returned result with `n` steps.
pub record IsSound (verifier : Verifier) (n : ℕ) (r : SkillRunResult) : Type 0 where
  pub counted : length r.steps ≡ n
  pub justified : Justified r.skill_result r.verifier_result r.manager_stop_result
  pub judged : Judged verifier r.verifier_result

abbrev pub Sound : Verifier → ℕ → Call SkillRunResult → Type 0
Sound verifier n raises = Unit
Sound verifier n (returns r) = IsSound verifier n r

abbrev pub RoundSound : {W : Type 0} → Verifier → ℕ → Round W → Type 0
RoundSound verifier n (finished o) = Sound verifier n o.answer
RoundSound verifier n (continues l) = (length l.steps ≡ n) × Judged verifier l.verdict

module _ (fresh : ℕ → String) (logging : Bool) {W : Type 0} (verifier : Verifier) where
  pub finish-Sound :
      (result : SkillResult) (stop : Option ManagerStopResult) (e : Option EventRecord)
      (l : Locals W) (n : ℕ)
      → length l.steps ≡ n
      → Justified result l.verdict stop
      → Judged verifier l.verdict
      → Sound verifier n (finish fresh logging result stop e l).answer
  unfolding finish
  finish-Sound result stop e l n h j w = record { counted = h; justified = j; judged = w }

  pub stop_run-Sound :
      (contract : SkillContract) (reason : String) (stop : Option ManagerStopResult) (l : Locals W)
      (n : ℕ)
      → length l.steps ≡ n
      → Judged verifier l.verdict
      → Sound verifier n (stop_run fresh logging contract reason stop l).answer
  unfolding stop_run
  stop_run-Sound contract reason stop l n h w = record {
    counted = h;
    justified = λ s. cc;
    judged = w;
  }

pub terminal_success :
    (contract : SkillContract) (before after : Observation) (r : VerifierResult) (x : SkillResult)
    → terminal_result contract before after r ≡ returns (some x)
    → x.success ≡ true
    → (r.status ≡ VerifierStatus.success) × (x.evidence_ids ≡ r.evidence_ids)
unfolding terminal_result
terminal_success contract before after r x h s = ground arith
