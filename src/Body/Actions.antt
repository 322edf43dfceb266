-- ===== src/Body/Actions.antt =====
-- src/fh_agent/body/primitive_actions.py
use autonomous_game_agent.Prelude.{ℕ, String, Bool, false, List, [], ◌∷◌, ◌==◌, ◌||◌}

pub data PrimitiveAction : Type 0 where
  move_up_short move_down_short move_left_short move_right_short : PrimitiveAction
  confirm cancel open_menu wait : PrimitiveAction

-- the values of the StrEnum
unfoldable pub action_value : PrimitiveAction → String
action_value PrimitiveAction.move_up_short = "move_up_short"
action_value PrimitiveAction.move_down_short = "move_down_short"
action_value PrimitiveAction.move_left_short = "move_left_short"
action_value PrimitiveAction.move_right_short = "move_right_short"
action_value PrimitiveAction.confirm = "confirm"
action_value PrimitiveAction.cancel = "cancel"
action_value PrimitiveAction.open_menu = "open_menu"
action_value PrimitiveAction.wait = "wait"

action_code : PrimitiveAction → ℕ
action_code PrimitiveAction.move_up_short = 0
action_code PrimitiveAction.move_down_short = 1
action_code PrimitiveAction.move_left_short = 2
action_code PrimitiveAction.move_right_short = 3
action_code PrimitiveAction.confirm = 4
action_code PrimitiveAction.cancel = 5
action_code PrimitiveAction.open_menu = 6
action_code PrimitiveAction.wait = 7

-- `==` on the members
unfoldable pub action_eq : PrimitiveAction → PrimitiveAction → Bool
unfolding action_code
action_eq a b = action_code a == action_code b

-- `action in actions`
unfoldable pub action_in : PrimitiveAction → List PrimitiveAction → Bool
unfolding action_eq
action_in a [] = false
action_in a (b ∷ actions) = action_eq a b || action_in a actions
