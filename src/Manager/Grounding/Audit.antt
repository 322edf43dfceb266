-- ===== src/Manager/Grounding/Audit.antt =====
-- What a grounding of src/fh_agent/manager/grounding.py promises, and the evidence that its audit covers.
use autonomous_game_agent.Prelude.{
  ℕ, String, Bool, true, false, not, Option, none, some, List, [], ◌∷◌, ◌++◌, ◌≡◌, refl, ◌||◌,
  arith, if_holds, if◌then◌else◌, str_eq,
}
use autonomous_game_agent.Prelude.Int.{pos}
use autonomous_game_agent.Prelude.Ids.{
  contains, in_any, extend_all, NoRepeats, contains-extend_all, extend_all-NoRepeats,
}
use autonomous_game_agent.Game.Call.{Call, returns, raises}
use autonomous_game_agent.Observation.{Observation, VisibleSprite}
use autonomous_game_agent.Manager.Task.{no_empty_text}
use autonomous_game_agent.Manager.TargetRef.{
  GroundedTarget, TargetType, TargetRequirement, GroundingStatus, GroundingFailureReason,
  GroundingResult, target_requirement_for_skill, target_type, target_evidence_ids,
  enforce_status_contract,
}
use autonomous_game_agent.Manager.Grounding.{
  GroundingRequest, GroundingPolicy, id_if_text, sprite_ids, observation_evidence_ids, is_subset,
  failure,
}
use autonomous_game_agent.Manager.Grounding.Only.{IsOnly}

pub not-false : (b : Bool) → not b ≡ false → b ≡ true
not-false true h = refl
not-false false h = cc

abbrev pub target_position : GroundedTarget → ℕ × ℕ
target_position (GroundedTarget.visible_screen_point t) = t.screen_position
target_position (GroundedTarget.visible_object t) = t.screen_position

-- The IDs that a grounding may use.
abbrev pub sources : GroundingRequest → Observation → List (List String)
sources request o = request.evidence_scope_ids ∷ o.evidence_ids ∷ sprite_ids o.visible_sprites ∷ []

in_any-three :
    (xs ys zs : List String) (a : String)
    → in_any (xs ∷ ys ∷ zs ∷ []) a ≡ (contains xs a || (contains ys a || contains zs a))
unfolding in_any
in_any-three xs ys zs a = ground arith

-- The target of a result that is grounded.
pub record IsOnTarget (policy : GroundingPolicy) (request : GroundingRequest) (o : Observation)
    (r : GroundingResult) : Type 0 where
  pub type : TargetType
  pub wanted :
      target_requirement_for_skill request.selected_skill ≡ some (TargetRequirement.of_type type)
  pub target : GroundedTarget
  pub held : r.target ≡ some target
  pub fits : target_type target ≡ type
  pub current : is_subset request.evidence_scope_ids (observation_evidence_ids o) ≡ true
  pub sprite : VisibleSprite
  pub only : IsOnly policy.min_confidence o.visible_sprites sprite
  pub left : sprite.screen_position.0 ≡ pos (target_position target).0
  pub top : sprite.screen_position.1 ≡ pos (target_position target).1
  pub evidence : target_evidence_ids target ≡ r.evidence_ids

pub record IsGrounding (policy : GroundingPolicy) (request : GroundingRequest) (o : Observation)
    (r : GroundingResult) : Type 0 where
  pub accepted : enforce_status_contract r ≡ true
  pub distinct : NoRepeats r.evidence_ids
  pub sourced :
      (a : String) → contains r.evidence_ids a ≡ true → in_any (sources request o) a ≡ true
  pub covers_scope :
      (a : String) → contains request.evidence_scope_ids a ≡ true → contains r.evidence_ids a ≡ true
  pub on_target : r.status ≡ GroundingStatus.grounded → IsOnTarget policy request o r

abbrev pub Promised :
    GroundingPolicy → GroundingRequest → Observation → Call GroundingResult → Type 0
Promised policy request o raises = Unit
Promised policy request o (returns r) = IsGrounding policy request o r

module _ (policy : GroundingPolicy) (request : GroundingRequest) (o : Observation) where
  pub contains-observation :
      (a : String)
      → contains (observation_evidence_ids o) a
        ≡ (contains o.evidence_ids a || contains (sprite_ids o.visible_sprites) a)
  unfolding observation_evidence_ids in_any contains
  contains-observation a =
      ground (arith, contains-extend_all [] (o.evidence_ids ∷ sprite_ids o.visible_sprites ∷ []) a)

  abbrev pub audit : List String
  audit = extend_all [] (request.evidence_scope_ids ∷ observation_evidence_ids o ∷ [])

  contains-audit :
      (a : String)
      → contains audit a ≡ (
          contains request.evidence_scope_ids a
          || (contains o.evidence_ids a || contains (sprite_ids o.visible_sprites) a))
  unfolding in_any contains
  contains-audit a = ground (
    arith,
    contains-extend_all [] (request.evidence_scope_ids ∷ observation_evidence_ids o ∷ []) a,
    contains-observation a,
  )

  pub in_any-sources :
      (a : String)
      → in_any (sources request o) a ≡ (
          contains request.evidence_scope_ids a
          || (contains o.evidence_ids a || contains (sprite_ids o.visible_sprites) a))
  in_any-sources a =
      in_any-three request.evidence_scope_ids o.evidence_ids (sprite_ids o.visible_sprites) a

  pub failure-Promised :
      (reason : GroundingFailureReason) → Promised policy request o (failure reason audit)
  unfolding failure enforce_status_contract
  failure-Promised reason =
      if_holds (Promised policy request o) (no_empty_text audit)
        (λ h. record {
          accepted = refl;
          distinct = extend_all-NoRepeats [] _ tt;
          sourced = λ a k. ground (arith, contains-audit a, in_any-sources a);
          covers_scope = λ a k. ground (arith, contains-audit a);
          on_target = λ k. cc;
        })
        (λ h. tt)

pub sprite_ids-append :
    (xs ys : List VisibleSprite) (a : String)
    → contains (sprite_ids (xs ++ ys)) a
      ≡ (contains (sprite_ids xs) a || contains (sprite_ids ys) a)
unfolding sprite_ids contains
sprite_ids-append [] ys a = refl
sprite_ids-append (x ∷ xs) ys a = at x.evidence_id (sprite_ids-append xs ys a)
  where
    at :
        (e : Option String)
        → contains (sprite_ids (xs ++ ys)) a
          ≡ (contains (sprite_ids xs) a || contains (sprite_ids ys) a)
        → contains
            (elim e as (λ _. List String) [
              | none ↦ sprite_ids (xs ++ ys)
              | some i ↦ if str_eq i "" then sprite_ids (xs ++ ys) else i ∷ sprite_ids (xs ++ ys)
            ])
            a
          ≡ (contains
                (elim e as (λ _. List String) [
                  | none ↦ sprite_ids xs
                  | some i ↦ if str_eq i "" then sprite_ids xs else i ∷ sprite_ids xs
                ])
                a
              || contains (sprite_ids ys) a)
    at none ih = ih
    at (some i) ih = ground arith

pub sprite_ids-head :
    (s : VisibleSprite) (ys : List VisibleSprite) (a : String)
    → contains (id_if_text s.evidence_id) a ≡ true
    → contains (sprite_ids (s ∷ ys)) a ≡ true
unfolding sprite_ids contains
sprite_ids-head s ys a = at s.evidence_id
  where
    at :
        (e : Option String)
        → contains (id_if_text e) a ≡ true
        → contains
            (elim e as (λ _. List String) [
              | none ↦ sprite_ids ys
              | some i ↦ if str_eq i "" then sprite_ids ys else i ∷ sprite_ids ys
            ])
            a
          ≡ true
    at none h = cc
    at (some i) h = ground arith
