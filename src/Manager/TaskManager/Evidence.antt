-- ===== src/Manager/TaskManager/Evidence.antt =====
-- The evidence that a task cites.
use autonomous_game_agent.Prelude.{String, false, Option, List, [], ◌∷◌, ◌≡◌, refl, ◌||◌, arith}
use autonomous_game_agent.Prelude.Ids.{
  contains, in_any, extend_all, NoRepeats, contains-extend_all, extend_all-NoRepeats,
}
use autonomous_game_agent.Manager.TargetRef.{GroundedTarget, GroundingResult}
use autonomous_game_agent.Manager.TaskManager.{
  source_evidence_ids, evidence_of_target, evidence_of_grounding,
}

-- What the evidence of a task is: distinct IDs, exactly those of the parts.
pub record IsUnion (claims updates : List (List String)) (target grounding : List String)
    (ids : List String) : Type 0 where
  pub distinct : NoRepeats ids
  pub exact :
      (a : String)
      → contains ids a
        ≡ (in_any claims a || in_any updates a || contains target a || contains grounding a)

in_any-one : (xs : List String) (a : String) → in_any (xs ∷ []) a ≡ contains xs a
unfolding in_any
in_any-one xs a = ground arith

contains-none : (a : String) → contains [] a ≡ false
unfolding contains
contains-none a = refl

-- The evidence IDs of a task are distinct, and are exactly the IDs of the plan's claims, of its memory
-- updates, of the target and of the grounding.
pub source_evidence-IsUnion :
    (claims updates : List (List String)) (grounding : Option GroundingResult)
    (target : Option GroundedTarget)
    → IsUnion claims updates
        (evidence_of_target target)
        (evidence_of_grounding grounding)
        (source_evidence_ids claims updates grounding target)
unfolding source_evidence_ids
source_evidence-IsUnion claims updates grounding target = record {
  distinct = extend_all-NoRepeats c (g ∷ []) (
      extend_all-NoRepeats b (t ∷ [])
        (extend_all-NoRepeats a updates (extend_all-NoRepeats [] claims tt)));
  exact = λ i. ground (
    arith,
    contains-extend_all c (g ∷ []) i,
    contains-extend_all b (t ∷ []) i,
    contains-extend_all a updates i,
    contains-extend_all [] claims i,
    in_any-one g i,
    in_any-one t i,
    contains-none i,
  );
}
  where
    t : List String
    t = evidence_of_target target

    g : List String
    g = evidence_of_grounding grounding

    a : List String
    a = extend_all [] claims

    b : List String
    b = extend_all a updates

    c : List String
    c = extend_all b (t ∷ [])
