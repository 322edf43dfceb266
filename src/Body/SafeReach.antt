-- ===== src/Body/SafeReach.antt =====
-- src/fh_agent/body/safety_filter.py and skills/safe_reach_target.py: a movement within a risk limit. The
-- floats and their operations are a parameter; the range checks of the records are left out.
pub mod Safe
mod Tests
use autonomous_game_agent.Prelude.{
  ℕ, suc, String, Bool, true, false, not, List, [], ◌∷◌, map, if◌then◌else◌, ltb,
}
use autonomous_game_agent.Body.Actions.{PrimitiveAction}

-- Python's floats, as far as the code uses them; `at_most a b` is `a <= b`.
pub record Floats (F : Type 0) : Type 0 where
  pub zero_float : F
  pub one : F
  pub minus_one : F
  pub add : F → F → F
  pub sub : F → F → F
  pub mul : F → F → F
  pub div : F → F → F
  pub hypot : F → F → F
  pub less : F → F → Bool
  pub at_most : F → F → Bool
  pub equal : F → F → Bool

pub record ScreenPoint (F : Type 0) : Type 0 where
  pub x : F
  pub y : F

pub record HazardSignal (F : Type 0) : Type 0 where
  pub position : ScreenPoint F
  pub risk_score : F
  pub influence_radius : F
  pub evidence_ids : List String

pub record SafetyFilterResult (F : Type 0) : Type 0 where
  pub action : PrimitiveAction
  pub risk_score : F
  pub blocked : Bool
  pub reasons : List String

pub record SafeReachTargetState (F : Type 0) : Type 0 where
  pub current_position : ScreenPoint F
  pub target_position : ScreenPoint F
  pub hazards : List (HazardSignal F)
  pub max_risk_threshold : F
  pub step_size : F

pub record SafeReachTargetDecision (F : Type 0) : Type 0 where
  pub action : PrimitiveAction
  pub blocked : Bool
  pub reason : String
  pub risk_score : F
  pub target_distance_after_action : F
  pub considered_actions : List PrimitiveAction

pub data Movement : Type 0 where
  -- a waiting, an action that moves, and one that does not navigate
  stays other : Movement
  moves : Movement

-- the tests of `assess_action` on the action
unfoldable pub movement : PrimitiveAction → Movement
movement PrimitiveAction.wait = Movement.stays
movement PrimitiveAction.move_up_short = Movement.moves
movement PrimitiveAction.move_down_short = Movement.moves
movement PrimitiveAction.move_left_short = Movement.moves
movement PrimitiveAction.move_right_short = Movement.moves
movement _ = Movement.other

abbrev pub navigation_actions : List PrimitiveAction
navigation_actions =
    PrimitiveAction.move_right_short ∷ PrimitiveAction.move_left_short
    ∷ PrimitiveAction.move_down_short ∷ PrimitiveAction.move_up_short ∷ []

-- `NAVIGATION_ACTIONS.index(action)`, of the four actions
unfoldable pub navigation_index : PrimitiveAction → ℕ
navigation_index PrimitiveAction.move_right_short = 0
navigation_index PrimitiveAction.move_left_short = 1
navigation_index PrimitiveAction.move_down_short = 2
navigation_index PrimitiveAction.move_up_short = 3
navigation_index _ = 4

-- the results of the actions that are not blocked
unfoldable pub safe_candidates :
    {F : Type 0} → List (SafetyFilterResult F) → List (SafetyFilterResult F)
safe_candidates [] = []
safe_candidates (r ∷ results) =
    if not r.blocked then r ∷ safe_candidates results else safe_candidates results

module _ {F : Type 0} (fl : Floats F) where
  unfoldable pub point_distance : ScreenPoint F → ScreenPoint F → F
  point_distance first second = fl.hypot (fl.sub second.x first.x) (fl.sub second.y first.y)

  -- `ACTION_DELTAS`; an action without an entry is not looked up
  unfoldable pub delta : PrimitiveAction → F × F
  delta PrimitiveAction.move_up_short = (fl.zero_float, fl.minus_one)
  delta PrimitiveAction.move_down_short = (fl.zero_float, fl.one)
  delta PrimitiveAction.move_left_short = (fl.minus_one, fl.zero_float)
  delta PrimitiveAction.move_right_short = (fl.one, fl.zero_float)
  delta _ = (fl.zero_float, fl.zero_float)

  unfoldable pub next_position_for_action : ScreenPoint F → PrimitiveAction → F → ScreenPoint F
  unfolding delta
  next_position_for_action p a step_size =
      let (dx, dy) = delta a in
      record { x = fl.add p.x (fl.mul dx step_size); y = fl.add p.y (fl.mul dy step_size) }

  unfoldable pub hazard_risk_at_point : HazardSignal F → ScreenPoint F → F
  unfolding point_distance
  hazard_risk_at_point h p =
      let distance = point_distance p h.position in
      if fl.less h.influence_radius distance
      then fl.zero_float
      else fl.mul h.risk_score (fl.sub fl.one (fl.div distance h.influence_radius))

  -- the rest of `max(..., default=0.0)`, with the largest risk so far
  unfoldable pub max_risk_from : F → List (HazardSignal F) → ScreenPoint F → F
  unfolding hazard_risk_at_point
  max_risk_from best [] p = best
  max_risk_from best (h ∷ hs) p =
      let r = hazard_risk_at_point h p in max_risk_from (if fl.less best r then r else best) hs p

  unfoldable pub max_risk : List (HazardSignal F) → ScreenPoint F → F
  unfolding max_risk_from
  max_risk [] p = fl.zero_float
  max_risk (h ∷ hs) p = max_risk_from (hazard_risk_at_point h p) hs p

  -- the end of `assess_action`, for an action that moves
  unfoldable pub assess_movement : SafeReachTargetState F → PrimitiveAction → SafetyFilterResult F
  unfolding next_position_for_action max_risk
  assess_movement s a =
      let risk = max_risk s.hazards (next_position_for_action s.current_position a s.step_size) in
      let blocked = fl.at_most s.max_risk_threshold risk in
      record {
        action = a;
        risk_score = risk;
        blocked = blocked;
        reasons = if blocked then "blocked_by_high_risk_entity" ∷ [] else [];
      }

  unfoldable pub assess_action : SafeReachTargetState F → PrimitiveAction → SafetyFilterResult F
  unfolding movement assess_movement
  assess_action s a = elim (movement a) [
    | Movement.stays ↦ record {
      action = a;
      risk_score = fl.zero_float;
      blocked = false;
      reasons = [];
    }
    | Movement.other ↦ record {
      action = a;
      risk_score = fl.one;
      blocked = true;
      reasons = "unsupported_navigation_action" ∷ [];
    }
    | Movement.moves ↦ assess_movement s a
  ]

  unfoldable pub assess_actions :
      SafeReachTargetState F → List PrimitiveAction → List (SafetyFilterResult F)
  unfolding assess_action
  assess_actions s [] = []
  assess_actions s (a ∷ actions) = assess_action s a ∷ assess_actions s actions

  unfoldable pub distance_after_action : SafeReachTargetState F → PrimitiveAction → F
  unfolding movement next_position_for_action point_distance
  distance_after_action s a = elim (movement a) [
    | Movement.moves ↦
        point_distance (next_position_for_action s.current_position a s.step_size) s.target_position
    | _ ↦ point_distance s.current_position s.target_position
  ]

  unfoldable pub candidate_sort_key : SafeReachTargetState F → SafetyFilterResult F → F × F × ℕ
  unfolding distance_after_action navigation_index
  candidate_sort_key s r =
      (distance_after_action s r.action, r.risk_score, navigation_index r.action)

  -- `<` on the tuples: the first place where they differ decides
  unfoldable pub key_less : F × F × ℕ → F × F × ℕ → Bool
  key_less (d, r, i) (e, q, j) =
      if not (fl.equal d e)
      then fl.less d e
      else if not (fl.equal r q)
      then fl.less r q
      else ltb i j

  -- `min(..., key=...)`, with the first smallest candidate so far
  unfoldable pub best_from :
      SafeReachTargetState F
      → SafetyFilterResult F
      → List (SafetyFilterResult F)
      → SafetyFilterResult F
  unfolding candidate_sort_key key_less
  best_from s best [] = best
  best_from s best (r ∷ rest) =
      best_from s
        (if key_less (candidate_sort_key s r) (candidate_sort_key s best) then r else best) rest

  -- `max(..., key=...)`, with the first riskiest result so far
  unfoldable pub worst_from :
      SafetyFilterResult F → List (SafetyFilterResult F) → SafetyFilterResult F
  worst_from worst [] = worst
  worst_from worst (r ∷ rest) =
      worst_from (if fl.less worst.risk_score r.risk_score then r else worst) rest

  -- `reasons[0] if reasons else ...`
  abbrev first_reason : List String → String
  first_reason [] = "blocked_by_high_risk_entity"
  first_reason (r ∷ rs) = r

  unfoldable pub wait_out :
      SafeReachTargetState F → SafetyFilterResult F → SafeReachTargetDecision F
  unfolding point_distance
  wait_out s worst = record {
    action = PrimitiveAction.wait;
    blocked = true;
    reason = first_reason worst.reasons;
    risk_score = worst.risk_score;
    target_distance_after_action = point_distance s.current_position s.target_position;
    considered_actions = navigation_actions;
  }

  unfoldable pub go : SafeReachTargetState F → SafetyFilterResult F → SafeReachTargetDecision F
  unfolding distance_after_action
  go s best = record {
    action = best.action;
    blocked = false;
    reason = "move_toward_target_within_risk_limit";
    risk_score = best.risk_score;
    target_distance_after_action = distance_after_action s best.action;
    considered_actions = navigation_actions;
  }

  -- the decision on the candidates, with the first of the four results and the others
  unfoldable pub decide :
      SafeReachTargetState F
      → List (SafetyFilterResult F)
      → SafetyFilterResult F
      → List (SafetyFilterResult F)
      → SafeReachTargetDecision F
  unfolding wait_out go best_from worst_from
  decide s [] r results = wait_out s (worst_from r results)
  decide s (c ∷ candidates) r results = go s (best_from s c candidates)

  unfoldable pub choose_safe_reach_action : SafeReachTargetState F → SafeReachTargetDecision F
  unfolding decide assess_actions safe_candidates
  choose_safe_reach_action s =
      let first = assess_action s PrimitiveAction.move_right_short in
      let others = assess_actions s (
        PrimitiveAction.move_left_short ∷ PrimitiveAction.move_down_short
        ∷ PrimitiveAction.move_up_short ∷ []) in
      decide s (safe_candidates (first ∷ others)) first others
