-- ===== src/Verifier/Contract.antt =====
-- What every verdict promises: the port of src/fh_agent/verifier/ports.py with its contract.
use autonomous_game_agent.Prelude.{
  String, Bool, true, false, some, List, [], ◌∷◌, ◌≡◌, refl, ◌≢◌, arith, is_empty,
}
use autonomous_game_agent.Prelude.Ids.{
  contains, in_any, every_empty, extend_all, NoRepeats, contains-extend_all, extend_all-NoRepeats,
  is_empty-extend_all,
}
use autonomous_game_agent.Observation.{Observation}
use autonomous_game_agent.Verifier.Schemas.{
  VerifierStatus, FailureKind, VerifierResult, failure_kind_matches_status, visibly_dead,
  abstention, success_with, death_with,
}

abbrev pub is_terminal : VerifierStatus → Bool
is_terminal VerifierStatus.success = true
is_terminal VerifierStatus.failure = true
is_terminal VerifierStatus.progress = false
is_terminal VerifierStatus.abstain = false

-- A verdict on `after`, drawn from the evidence of `sources`.
pub record IsBacked (sources : List (List String)) (after : Observation) (r : VerifierResult)
    : Type 0 where
  pub accepted : failure_kind_matches_status r ≡ true
  pub evidenced : is_terminal r.status ≡ true → is_empty r.evidence_ids ≡ false
  pub distinct : NoRepeats r.evidence_ids
  pub sourced : (a : String) → contains r.evidence_ids a ≡ true → in_any sources a ≡ true
  pub covers_after :
      is_terminal r.status ≡ true
      → (a : String) → contains after.evidence_ids a ≡ true
      → contains r.evidence_ids a ≡ true
  pub failure_is_death :
      r.status ≡ VerifierStatus.failure
      → (visibly_dead after ≡ true) × (r.failure_kind ≡ some FailureKind.death)
  pub success_is_alive : r.status ≡ VerifierStatus.success → visibly_dead after ≡ false
  pub never_progress : r.status ≢ VerifierStatus.progress

module _ (sources : List (List String)) (after : Observation) where
  pub abstention-IsBacked : IsBacked sources after abstention
  unfolding failure_kind_matches_status contains
  abstention-IsBacked = record {
    accepted = refl;
    evidenced = λ h. cc;
    distinct = tt;
    sourced = λ a h. cc;
    covers_after = λ h. cc;
    failure_is_death = λ h. cc;
    success_is_alive = λ h. cc;
    never_progress = λ h. cc;
  }

  pub death-IsBacked :
      visibly_dead after ≡ true
      → is_empty after.evidence_ids ≡ false
      → ((a : String) → contains after.evidence_ids a ≡ true → in_any sources a ≡ true)
      → IsBacked sources after (death_with (extend_all [] (after.evidence_ids ∷ [])))
  unfolding failure_kind_matches_status contains in_any every_empty
  death-IsBacked dead some_evidence within = record {
    accepted = refl;
    evidenced = λ h. ground (arith, is_empty-extend_all [] (after.evidence_ids ∷ []));
    distinct = extend_all-NoRepeats [] (after.evidence_ids ∷ []) tt;
    sourced = λ a h. ground (arith, contains-extend_all [] (after.evidence_ids ∷ []) a, within a);
    covers_after = λ h a k. ground (arith, contains-extend_all [] (after.evidence_ids ∷ []) a);
    failure_is_death = λ h. (dead, refl);
    success_is_alive = λ h. cc;
    never_progress = λ h. cc;
  }

  pub success-IsBacked :
      (ids : List (List String))
      → visibly_dead after ≡ false
      → every_empty ids ≡ false
      → ((a : String) → in_any ids a ≡ true → in_any sources a ≡ true)
      → ((a : String) → contains after.evidence_ids a ≡ true → in_any ids a ≡ true)
      → IsBacked sources after (success_with (extend_all [] ids))
  unfolding failure_kind_matches_status contains
  success-IsBacked ids alive some_evidence within covers = record {
    accepted = refl;
    evidenced = λ h. ground (arith, is_empty-extend_all [] ids);
    distinct = extend_all-NoRepeats [] ids tt;
    sourced = λ a h. ground (arith, contains-extend_all [] ids a, within a);
    covers_after = λ h a k. ground (arith, contains-extend_all [] ids a, covers a);
    failure_is_death = λ h. cc;
    success_is_alive = λ h. alive;
    never_progress = λ h. cc;
  }
