-- ===== src/Manager/Grounding/Sound.antt =====
-- What a grounding promises, whichever way it ends.
use autonomous_game_agent.Prelude.{
  ℕ, String, true, not, Option, none, some, List, [], ◌∷◌, ◌≡◌, refl, sym, ◌&&◌, ◌||◌, arith,
  if_holds, is_empty,
}
use autonomous_game_agent.Prelude.Ids.{
  contains, in_any, extend_all, contains-extend_all, extend_all-NoRepeats,
}
use autonomous_game_agent.Game.Call.{Call, returns, raises}
use autonomous_game_agent.Observation.{Observation, VisibleSprite}
use autonomous_game_agent.Manager.Task.{no_empty_text, is_blank_id}
use autonomous_game_agent.Manager.TargetRef.{
  GroundedTarget, TargetType, TargetRequirement, GroundingFailureReason, GroundingResult,
  target_requirement_for_skill, target_type, target_evidence_ids, enforce_status_contract,
}
use autonomous_game_agent.Manager.Grounding.{
  GroundingRequest, GroundingPolicy, VisibleCandidate, compatible_candidates, confident_candidates,
  id_if_text, sprite_ids, observation_evidence_ids, is_subset, failure, grounded_on,
  target_for_candidate, ground_candidate, ground_confident, ground_target,
}
use autonomous_game_agent.Manager.Grounding
use autonomous_game_agent.Manager.Grounding.Only.{IsOnly, Shows, picked, picked-IsOnly}
use autonomous_game_agent.Manager.Grounding.Audit.{
  not-false, target_position, Promised, contains-observation, audit, in_any-sources,
  failure-Promised, sprite_ids-append, sprite_ids-head,
}

module _ (policy : GroundingPolicy) (request : GroundingRequest) (o : Observation)
    (target_id_for : TargetType → VisibleCandidate → List String → String) where
  -- the evidence of the candidate that is left is evidence of the observation
  candidate-evidence :
      (s : VisibleSprite) (c : VisibleCandidate)
      → IsOnly policy.min_confidence o.visible_sprites s
      → Shows s c
      → (a : String) → contains (id_if_text c.evidence_id) a ≡ true
      → contains (sprite_ids o.visible_sprites) a ≡ true
  candidate-evidence s c only shown a h =
      let h' : contains (id_if_text s.evidence_id) a ≡ true = rw (sym shown.evidence) h in
      rw only.split (
        ground (
          arith,
          sprite_ids-append only.before (s ∷ only.after) a,
          sprite_ids-head s only.after a h',
        ))

  abbrev target_ids : VisibleCandidate → List String
  target_ids c =
      extend_all []
        (request.evidence_scope_ids ∷ observation_evidence_ids o ∷ id_if_text c.evidence_id ∷ [])

  contains-target_ids :
      (c : VisibleCandidate) (a : String)
      → contains (target_ids c) a ≡ (
          (contains request.evidence_scope_ids a
            || (contains o.evidence_ids a || contains (sprite_ids o.visible_sprites) a))
          || contains (id_if_text c.evidence_id) a)
  unfolding in_any contains
  contains-target_ids c a = ground (
    arith,
    contains-extend_all []
        (request.evidence_scope_ids ∷ observation_evidence_ids o ∷ id_if_text c.evidence_id ∷ []) a,
    contains-observation policy request o a,
  )

  -- A target that was built is of the wanted type, and has the position of its candidate and the evidence.
  abbrev Built : TargetType → VisibleCandidate → List String → Call GroundedTarget → Type 0
  Built type c ids raises = Unit
  Built type c ids (returns t) =
      (target_type t ≡ type)
      × (target_position t ≡ c.screen_position)
      × (target_evidence_ids t ≡ ids)

  target_for_candidate-Built :
      (type : TargetType) (c : VisibleCandidate) (confidence : ℕ) (ids : List String)
      → Built type c ids (target_for_candidate target_id_for type c confidence ids)
  unfolding target_for_candidate target_type target_evidence_ids
  target_for_candidate-Built TargetType.object c confidence ids =
      if_holds (Built TargetType.object c ids)
        (not (is_empty ids) && no_empty_text ids && not (is_blank_id c.visual_hash))
        (λ h. (refl, refl, refl)) (λ h. tt)
  target_for_candidate-Built TargetType.screen_point c confidence ids =
      if_holds (Built TargetType.screen_point c ids) (not (is_empty ids) && no_empty_text ids)
        (λ h. (refl, refl, refl)) (λ h. tt)

  ground_candidate-Promised :
      (type : TargetType) (c : VisibleCandidate) (confidence : Option ℕ)
      → target_requirement_for_skill request.selected_skill ≡ some (TargetRequirement.of_type type)
      → is_subset request.evidence_scope_ids (observation_evidence_ids o) ≡ true
      → picked policy.min_confidence o.visible_sprites ≡ c ∷ []
      → Promised policy request o
          (ground_candidate target_id_for type request (observation_evidence_ids o) c confidence)
  unfolding ground_candidate
  ground_candidate-Promised type c none w u p = tt
  ground_candidate-Promised type c (some confidence) w u p =
      at (target_for_candidate target_id_for type c confidence (target_ids c))
        (target_for_candidate-Built type c confidence (target_ids c))
    where
      seen : (s : VisibleSprite) × IsOnly policy.min_confidence o.visible_sprites s × Shows s c
      seen = picked-IsOnly policy.min_confidence o.visible_sprites c p

      at :
          (t : Call GroundedTarget)
          → Built type c (target_ids c) t
          → Promised policy request o (elim t as (λ _. Call GroundingResult) [
            | raises ↦ raises
            | returns t' ↦ returns (grounded_on t' (target_ids c))
          ])
      at raises b = tt
      at (returns t) (fits, placed, evidence) = record {
        accepted = unfold enforce_status_contract in refl;
        distinct = extend_all-NoRepeats [] _ tt;
        sourced = λ a k. ground (
          arith,
          contains-target_ids c a,
          in_any-sources policy request o a,
          candidate-evidence seen.0 c seen.1 seen.2 a,
        );
        covers_scope = λ a k. ground (arith, contains-target_ids c a);
        on_target = λ k. record {
          type = type;
          wanted = w;
          target = t;
          held = refl;
          fits = fits;
          current = u;
          sprite = seen.0;
          only = seen.1;
          left = rw placed (seen.2.left);
          top = rw placed (seen.2.top);
          evidence = evidence;
        };
      }

  ground_confident-Promised :
      (type : TargetType) (cs : List VisibleCandidate)
      → target_requirement_for_skill request.selected_skill ≡ some (TargetRequirement.of_type type)
      → is_subset request.evidence_scope_ids (observation_evidence_ids o) ≡ true
      → picked policy.min_confidence o.visible_sprites ≡ cs
      → Promised policy request o (
          ground_confident target_id_for type request
            (observation_evidence_ids o)
            (audit policy request o)
            cs)
  unfolding ground_confident
  ground_confident-Promised type [] w u p =
      failure-Promised policy request o GroundingFailureReason.insufficient_confidence
  ground_confident-Promised type (c ∷ []) w u p =
      ground_candidate-Promised type c c.confidence w u p
  ground_confident-Promised type (c ∷ d ∷ rest) w u p =
      failure-Promised policy request o GroundingFailureReason.ambiguous_candidates

  ground_target-Promised :
      (type : TargetType)
      → target_requirement_for_skill request.selected_skill ≡ some (TargetRequirement.of_type type)
      → Promised policy request o
          (ground_target target_id_for policy type request o (audit policy request o))
  unfolding ground_target
  ground_target-Promised type w =
      if_holds (Promised policy request o)
        (is_empty (observation_evidence_ids o) || is_empty request.evidence_scope_ids)
        (λ h. failure-Promised policy request o GroundingFailureReason.insufficient_evidence)
        (λ h.
          if_holds (Promised policy request o)
            (not (is_subset request.evidence_scope_ids (observation_evidence_ids o)))
            (λ h. failure-Promised policy request o GroundingFailureReason.stale_evidence)
            (λ u.
              if_holds (Promised policy request o)
                (is_empty (compatible_candidates o.visible_sprites))
                (λ h. failure-Promised policy request o GroundingFailureReason.no_visible_candidate)
                (λ h.
                  ground_confident-Promised type (picked policy.min_confidence o.visible_sprites) w
                    (not-false _ u) refl)))

  -- A grounding raises, or returns a result that satisfies its status contract, whose evidence IDs are
  -- distinct, stand in the request's scope or in the observation, and cover the scope. A grounded result
  -- has a target of the type that the skill requires, the scope was evidence of the observation, and the
  -- target stands where the only sprite on screen with enough confidence stands, with the result's
  -- evidence IDs.
  pub grounding_is_sound :
      Promised policy request o (Grounding.ground target_id_for policy request o)
  unfolding Grounding.ground
  grounding_is_sound = at (target_requirement_for_skill request.selected_skill) refl
    where
      at :
          (t : Option TargetRequirement)
          → target_requirement_for_skill request.selected_skill ≡ t
          → Promised policy request o (elim t as (λ _. Call GroundingResult) [
            | none ↦ failure GroundingFailureReason.unsupported_target_type (audit policy request o)
            | some TargetRequirement.targetless ↦
                failure GroundingFailureReason.unsupported_target_type (audit policy request o)
            | some (TargetRequirement.of_type type) ↦
                ground_target target_id_for policy type request o (audit policy request o)
          ])
      at none w = failure-Promised policy request o GroundingFailureReason.unsupported_target_type
      at (some TargetRequirement.targetless) w =
          failure-Promised policy request o GroundingFailureReason.unsupported_target_type
      at (some (TargetRequirement.of_type type)) w = ground_target-Promised type w
