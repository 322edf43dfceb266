-- ===== src/Manager/Grounding/Request.antt =====
-- src/fh_agent/manager/grounding_request_builder.py: the request that a plan makes of the screen.
use autonomous_game_agent.Prelude.{
  String, true, false, not, Option, none, some, List, [], ◌∷◌, ◌≡◌, ◌≢◌, refl, ◌&&◌, arith,
  if◌then◌else◌, str_eq, eq_iff, eq_refl,
}
use autonomous_game_agent.Prelude.Ids.{
  contains, in_any, extend_all, contains-extend_all, NoRepeats, extend_all-NoRepeats,
}
use autonomous_game_agent.Game.Call.{Call, returns, raises}
use autonomous_game_agent.Observation.{Observation}
use autonomous_game_agent.Manager.Task.{no_empty_text}
use autonomous_game_agent.Manager.TargetRef.{
  SkillName, TargetRequirement, target_requirement_for_skill,
}
use autonomous_game_agent.Manager.Grounding.{
  GroundingRequest, request_accepted, observation_evidence_ids, is_subset, sprite_ids,
}

-- `i for i in ids if i`
unfoldable pub nonempty_ids : List String → List String
nonempty_ids [] = []
nonempty_ids (i ∷ ids) = if str_eq i "" then nonempty_ids ids else i ∷ nonempty_ids ids

-- the constructor's answer
unfoldable pub checked_request : GroundingRequest → Call (Option GroundingRequest)
unfolding request_accepted
checked_request r = if request_accepted r then returns (some r) else raises

-- the skill and the goal are those of the plan
unfoldable pub build_grounding_request :
    SkillName → String → Observation → Call (Option GroundingRequest)
unfolding nonempty_ids checked_request
build_grounding_request skill goal o =
    let request : GroundingRequest = record {
      selected_skill = skill;
      semantic_goal = goal;
      evidence_scope_ids = extend_all [] (nonempty_ids o.evidence_ids ∷ []);
    } in
    elim (target_requirement_for_skill skill) [
      | some TargetRequirement.targetless ↦ returns none
      | _ ↦ checked_request request
    ]

contains-nonempty_ids :
    (ids : List String) (a : String)
    → contains (nonempty_ids ids) a ≡ (contains ids a && not (str_eq a ""))
unfolding nonempty_ids contains
contains-nonempty_ids [] a = refl
contains-nonempty_ids (i ∷ ids) a =
    ground (arith, contains-nonempty_ids ids a, eq_iff i a, eq_iff i "", eq_iff a "")

is_subset-of_contains :
    (xs ys : List String)
    → ((a : String) → contains xs a ≡ true → contains ys a ≡ true)
    → is_subset xs ys ≡ true
unfolding is_subset contains
is_subset-of_contains [] ys h = refl
is_subset-of_contains (x ∷ xs) ys h =
    let first : contains ys x ≡ true = h x (ground (arith, eq_refl x)) in
    let rest : is_subset xs ys ≡ true = is_subset-of_contains xs ys (λ a k. h a (ground arith)) in
    ground arith

no_empty_text-of_contains : (xs : List String) → contains xs "" ≡ false → no_empty_text xs ≡ true
unfolding no_empty_text contains
no_empty_text-of_contains [] h = refl
no_empty_text-of_contains (x ∷ xs) h = ground (arith, no_empty_text-of_contains xs)

-- The request that is made of a screen: of the plan's skill and goal, with distinct IDs, none of them
-- empty, all of them evidence of that screen.
pub record IsOfScreen (skill : SkillName) (goal : String) (o : Observation) (r : GroundingRequest)
    : Type 0 where
  pub skill_is : r.selected_skill ≡ skill
  pub goal_is : r.semantic_goal ≡ goal
  pub distinct : NoRepeats r.evidence_scope_ids
  pub nonempty : no_empty_text r.evidence_scope_ids ≡ true
  pub current : is_subset r.evidence_scope_ids (observation_evidence_ids o) ≡ true

abbrev pub scope_of : Observation → List String
unfolding nonempty_ids
scope_of o = extend_all [] (nonempty_ids o.evidence_ids ∷ [])

contains-scope :
    (o : Observation) (a : String)
    → contains (scope_of o) a ≡ (contains o.evidence_ids a && not (str_eq a ""))
unfolding contains in_any scope_of
contains-scope o a = ground (
  arith,
  contains-extend_all [] (nonempty_ids o.evidence_ids ∷ []) a,
  contains-nonempty_ids o.evidence_ids a,
)

contains-shown :
    (o : Observation) (a : String)
    → contains o.evidence_ids a ≡ true
    → contains (observation_evidence_ids o) a ≡ true
unfolding observation_evidence_ids in_any contains
contains-shown o a h =
    ground (arith, contains-extend_all [] (o.evidence_ids ∷ sprite_ids o.visible_sprites ∷ []) a)

-- For a plan with a goal and a skill that is not targetless, a request is built, of the plan's skill and
-- goal; its scope has distinct IDs, none empty, all of them evidence of the screen, so that grounding it on
-- the same screen never finds it stale.
pub request-IsOfScreen :
    (skill : SkillName) (goal : String) (o : Observation)
    → str_eq goal "" ≡ false
    → target_requirement_for_skill skill ≢ some TargetRequirement.targetless
    → (r : GroundingRequest) × (build_grounding_request skill goal o ≡ returns (some r))
      × IsOfScreen skill goal o r
unfolding build_grounding_request checked_request request_accepted scope_of
request-IsOfScreen skill goal o named targeted =
    (r, built (target_requirement_for_skill skill) targeted, fine)
  where
    r : GroundingRequest
    r = record { selected_skill = skill; semantic_goal = goal; evidence_scope_ids = scope_of o }

    nonempty : no_empty_text (scope_of o) ≡ true
    nonempty =
        no_empty_text-of_contains (scope_of o) (ground (arith, contains-scope o "", eq_refl ""))

    fine : IsOfScreen skill goal o r
    fine = record {
      skill_is = refl;
      goal_is = refl;
      distinct = extend_all-NoRepeats [] (nonempty_ids o.evidence_ids ∷ []) tt;
      nonempty = nonempty;
      current = is_subset-of_contains (scope_of o) (observation_evidence_ids o) (λ a h.
          let k : contains o.evidence_ids a ≡ true = ground (arith, contains-scope o a) in
          contains-shown o a k);
    }

    checked : checked_request r ≡ returns (some r)
    checked = rw (named, nonempty) refl

    built :
        (t : Option TargetRequirement)
        → t ≢ some TargetRequirement.targetless
        → (elim t as (λ _. Call (Option GroundingRequest)) [
          | some TargetRequirement.targetless ↦ returns none
          | _ ↦ checked_request r
        ])
          ≡ returns (some r)
    built none n = checked
    built (some TargetRequirement.targetless) n = absurd (n refl)
    built (some (TargetRequirement.of_type type)) n = checked
