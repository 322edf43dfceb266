-- ===== src/Body/SafeReach/Tests.antt =====
-- The theorem on the choice, on natural numbers for floats, with the taxicab distance; 0 stands for -1, so
-- that a step to the left or up stays in place.
use autonomous_game_agent.Prelude.{ℕ, ◌+◌, ◌-◌, ◌*◌, [], ◌∷◌, ◌≡◌, refl, ltb, leb, ◌==◌, arith}
use autonomous_game_agent.Body.Actions.{PrimitiveAction}
use autonomous_game_agent.Body.SafeReach.{
  Floats, SafeReachTargetState, key_less, choose_safe_reach_action,
}
use autonomous_game_agent.Body.SafeReach.Safe.{
  IsKeyOrder, Decided, choose_safe_reach_action-Decided,
}

abbrev whole : Floats ℕ
whole = record {
  zero_float = 0;
  one = 1;
  minus_one = 0;
  add = λ a b. a + b;
  sub = λ a b. (a - b) + (b - a);
  mul = λ a b. a * b;
  div = λ a b. 0;
  hypot = λ a b. a + b;
  less = ltb;
  at_most = leb;
  equal = λ a b. a == b;
}

whole-IsKeyOrder : IsKeyOrder (key_less whole)
unfolding key_less
whole-IsKeyOrder = record {
  irreflexive = λ a. ground arith;
  asymmetric = λ a b h. ground arith;
  transitive = λ a b c h k. ground arith;
}

abbrev state : SafeReachTargetState ℕ
state = record {
  current_position = record { x = 3; y = 4 };
  target_position = record { x = 7; y = 4 };
  hazards =
      record {
        position = record { x = 4; y = 4 };
        risk_score = 3;
        influence_radius = 0;
        evidence_ids = [];
      }
      ∷ [];
  max_risk_threshold = 2;
  step_size = 1;
}

-- the way to the right leads into the hazard
hazard_is_avoided : (choose_safe_reach_action whole state).action ≡ PrimitiveAction.move_left_short
unfolding choose_safe_reach_action
hazard_is_avoided = refl

choose_safe_reach_action-Decided_example :
    Decided whole state (choose_safe_reach_action whole state)
choose_safe_reach_action-Decided_example =
    choose_safe_reach_action-Decided whole state whole-IsKeyOrder
