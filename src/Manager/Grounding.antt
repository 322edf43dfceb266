-- ===== src/Manager/Grounding.antt =====
-- src/fh_agent/manager/grounding.py: the bounded grounding of a target in visible sprites. The text of
-- a target ID (`target-` and a digest, never empty) is a parameter. A constructor that raises makes the
-- whole call raise. A confidence and the policy's threshold are in the units of `Observation`.
pub mod Only
pub mod Audit
pub mod Sound
pub mod Request
mod Tests
use autonomous_game_agent.Prelude.{
  ℕ, String, Bool, true, false, not, Option, none, some, List, [], ◌∷◌, ◌&&◌, ◌||◌, if◌then◌else◌,
  is_empty, leb, str_eq,
}
use autonomous_game_agent.Prelude.Int.{ℤ, pos, negsuc}
use autonomous_game_agent.Prelude.Ids.{contains, extend_all}
use autonomous_game_agent.Game.Call.{Call, returns, raises}
use autonomous_game_agent.Observation.{Observation, VisibleSprite, has_text}
use autonomous_game_agent.Manager.Task.{no_empty_text, is_blank_id}
use autonomous_game_agent.Manager.TargetRef.{
  SkillName, VisibleScreenPointTarget, VisibleObjectTarget, GroundedTarget, TargetType,
  TargetRequirement, GroundingStatus, GroundingFailureReason, GroundingResult,
  target_requirement_for_skill,
}

pub record GroundingRequest : Type 0 where
  pub selected_skill : SkillName
  pub semantic_goal : String
  pub evidence_scope_ids : List String

-- the field constraints: true where they hold
unfoldable pub request_accepted : GroundingRequest → Bool
request_accepted r = not (str_eq r.semantic_goal "") && no_empty_text r.evidence_scope_ids

pub record GroundingPolicy : Type 0 where
  pub min_confidence : ℕ

-- `_VisibleCandidate`, of which both coordinates are at least 0
pub record VisibleCandidate : Type 0 where
  pub screen_position : ℕ × ℕ
  pub visual_hash : Option String
  pub confidence : Option ℕ
  pub evidence_id : Option String

-- the candidate of a sprite, unless a coordinate is below 0
abbrev candidate_at : ℤ → ℤ → VisibleSprite → Option VisibleCandidate
candidate_at (negsuc x) y s = none
candidate_at (pos x) (negsuc y) s = none
candidate_at (pos x) (pos y) s = some (record {
  screen_position = (x, y);
  visual_hash = s.visual_hash;
  confidence = s.confidence;
  evidence_id = s.evidence_id;
})

abbrev cons_if_some : {A : Type 0} → Option A → List A → List A
cons_if_some none xs = xs
cons_if_some (some x) xs = x ∷ xs

unfoldable pub compatible_candidates : List VisibleSprite → List VisibleCandidate
compatible_candidates [] = []
compatible_candidates (s ∷ sprites) =
    cons_if_some (candidate_at s.screen_position.0 s.screen_position.1 s)
      (compatible_candidates sprites)

-- `confidence is not None and confidence >= min_confidence`
abbrev pub reaches : ℕ → Option ℕ → Bool
reaches threshold none = false
reaches threshold (some c) = leb threshold c

-- the comprehension of the confident candidates
unfoldable pub confident_candidates : ℕ → List VisibleCandidate → List VisibleCandidate
confident_candidates threshold [] = []
confident_candidates threshold (c ∷ candidates) =
    if reaches threshold c.confidence
    then c ∷ confident_candidates threshold candidates
    else confident_candidates threshold candidates

-- `(i,) if i else ()`
abbrev pub id_if_text : Option String → List String
id_if_text none = []
id_if_text (some i) = if str_eq i "" then [] else i ∷ []

-- the IDs of the sprites that have one
unfoldable pub sprite_ids : List VisibleSprite → List String
sprite_ids [] = []
sprite_ids (s ∷ sprites) = elim s.evidence_id [
  | none ↦ sprite_ids sprites
  | some i ↦ if str_eq i "" then sprite_ids sprites else i ∷ sprite_ids sprites
]

-- `_observation_evidence_ids`
unfoldable pub observation_evidence_ids : Observation → List String
unfolding sprite_ids
observation_evidence_ids o = extend_all [] (o.evidence_ids ∷ sprite_ids o.visible_sprites ∷ [])

-- `set(xs).issubset(ys)`
unfoldable pub is_subset : List String → List String → Bool
is_subset [] ys = true
is_subset (x ∷ xs) ys = contains ys x && is_subset xs ys

-- `_failure`; the constructor refuses an empty ID
unfoldable pub failure : GroundingFailureReason → List String → Call GroundingResult
failure reason ids =
    if no_empty_text ids
    then returns (record {
      status = GroundingStatus.grounding_failed;
      target = none;
      failure_reason = some reason;
      evidence_ids = ids;
    })
    else raises

abbrev pub grounded_on : GroundedTarget → List String → GroundingResult
grounded_on t ids = record {
  status = GroundingStatus.grounded;
  target = some t;
  failure_reason = none;
  evidence_ids = ids;
}

module _ (target_id_for : TargetType → VisibleCandidate → List String → String) where
  -- `_target_for_candidate`, with a confidence; the constructors refuse no ID, an empty ID and an empty hash
  unfoldable pub target_for_candidate :
      TargetType → VisibleCandidate → ℕ → List String → Call GroundedTarget
  target_for_candidate TargetType.object c confidence ids =
      if not (is_empty ids) && no_empty_text ids && not (is_blank_id c.visual_hash)
      then returns (
          GroundedTarget.visible_object (record {
            target_id = target_id_for TargetType.object c ids;
            confidence = confidence;
            evidence_ids = ids;
            screen_position = c.screen_position;
            visual_hash = c.visual_hash;
          }))
      else raises
  target_for_candidate TargetType.screen_point c confidence ids =
      if not (is_empty ids) && no_empty_text ids
      then returns (
          GroundedTarget.visible_screen_point (record {
            target_id = target_id_for TargetType.screen_point c ids;
            confidence = confidence;
            evidence_ids = ids;
            screen_position = c.screen_position;
          }))
      else raises

  -- the end of `ground`, for the one candidate that is left; a confident candidate has a confidence
  unfoldable pub ground_candidate :
      TargetType
      → GroundingRequest
      → List String
      → VisibleCandidate
      → Option ℕ
      → Call GroundingResult
  unfolding target_for_candidate
  ground_candidate type request observation_ids c none = raises
  ground_candidate type request observation_ids c (some confidence) =
      let ids =
        extend_all []
          (request.evidence_scope_ids ∷ observation_ids ∷ id_if_text c.evidence_id ∷ []) in
      elim (target_for_candidate type c confidence ids) [
        | raises ↦ raises
        | returns t ↦ returns (grounded_on t ids)
      ]

  -- `ground` from the confident candidates on
  unfoldable pub ground_confident :
      TargetType
      → GroundingRequest
      → List String
      → List String
      → List VisibleCandidate
      → Call GroundingResult
  unfolding ground_candidate failure
  ground_confident type request observation_ids audit_ids [] =
      failure GroundingFailureReason.insufficient_confidence audit_ids
  ground_confident type request observation_ids audit_ids (c ∷ []) =
      ground_candidate type request observation_ids c c.confidence
  ground_confident type request observation_ids audit_ids (c ∷ d ∷ rest) =
      failure GroundingFailureReason.ambiguous_candidates audit_ids

  -- `ground` for a requirement of a target
  unfoldable pub ground_target :
      GroundingPolicy
      → TargetType
      → GroundingRequest
      → Observation
      → List String
      → Call GroundingResult
  unfolding ground_confident failure compatible_candidates confident_candidates
      observation_evidence_ids is_subset
  ground_target policy type request o audit_ids =
      let observation_ids = observation_evidence_ids o in
      let candidates = compatible_candidates o.visible_sprites in
      if is_empty observation_ids || is_empty request.evidence_scope_ids
      then failure GroundingFailureReason.insufficient_evidence audit_ids
      else if not (is_subset request.evidence_scope_ids observation_ids)
      then failure GroundingFailureReason.stale_evidence audit_ids
      else if is_empty candidates
      then failure GroundingFailureReason.no_visible_candidate audit_ids
      else ground_confident type request observation_ids audit_ids
          (confident_candidates policy.min_confidence candidates)

  unfoldable pub ground : GroundingPolicy → GroundingRequest → Observation → Call GroundingResult
  unfolding ground_target failure observation_evidence_ids
  ground policy request o =
      let audit_ids =
        extend_all [] (request.evidence_scope_ids ∷ observation_evidence_ids o ∷ []) in
      elim (target_requirement_for_skill request.selected_skill) [
        | none ↦ failure GroundingFailureReason.unsupported_target_type audit_ids
        | some TargetRequirement.targetless ↦
            failure GroundingFailureReason.unsupported_target_type audit_ids
        | some (TargetRequirement.of_type type) ↦ ground_target policy type request o audit_ids
      ]
