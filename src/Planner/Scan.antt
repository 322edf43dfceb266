-- ===== src/Planner/Scan.antt =====
-- The scan for direct controls of src/fh_agent/planner/planner_output.py.
pub mod Complete
mod Tests
use autonomous_game_agent.Prelude.{
  ℕ, suc, String, Bool, true, false, List, [], ◌∷◌, ◌++◌, ◌&&◌, if◌then◌else◌,
}
use autonomous_game_agent.Prelude.{str_eq}
use autonomous_game_agent.Prelude.Ids.{contains}
use autonomous_game_agent.Planner.Text.{sorted_set, decimal, ◌<>◌}
use autonomous_game_agent.Planner.Paths.{one_if, key_path, index_path, root_path}
use autonomous_game_agent.Planner.Json.{
  Json, text, atom, array, object, Items, no_items, item, Entries, no_entries, entry,
}

abbrev pub forbidden_control_fields : List String
forbidden_control_fields = "keys" ∷ "key_sequence" ∷ "primitive_actions" ∷ "actions" ∷ []

abbrev pub primitive_action_names : List String
primitive_action_names =
    "move_up_short" ∷ "move_down_short" ∷ "move_left_short" ∷ "move_right_short" ∷ "confirm"
    ∷ "cancel" ∷ "open_menu" ∷ "wait" ∷ []

-- `isinstance(item, str) and item in PRIMITIVE_ACTION_NAMES`
unfoldable pub is_primitive : Json → Bool
is_primitive (text t) = contains primitive_action_names t
is_primitive (atom a) = false
is_primitive (array vs) = false
is_primitive (object kvs) = false

-- `all(...)` over the items
unfoldable pub all_primitive : Items → Bool
unfolding is_primitive
all_primitive no_items = true
all_primitive (item v vs) = is_primitive v && all_primitive vs

-- `items and all(...)`
unfoldable pub is_action_list : Items → Bool
unfolding all_primitive
is_action_list no_items = false
is_action_list (item v vs) = all_primitive (item v vs)

unfoldable mutual
  unfolding is_action_list sorted_set root_path key_path index_path

  pub find_direct_control_violations : Json → String → List String
  find_direct_control_violations (text t) path = sorted_set []
  find_direct_control_violations (atom a) path = sorted_set []
  find_direct_control_violations (array vs) path =
      sorted_set (one_if (is_action_list vs) (root_path path) ++ item_control_violations vs 0 path)
  find_direct_control_violations (object kvs) path = sorted_set (entry_control_violations kvs path)

  -- the loop over the elements
  pub item_control_violations : Items → ℕ → String → List String
  item_control_violations no_items i path = []
  item_control_violations (item v vs) i path =
      find_direct_control_violations v (index_path path i)
      ++ item_control_violations vs (suc i) path

  -- the loop over the keys
  pub entry_control_violations : Entries → String → List String
  entry_control_violations no_entries path = []
  entry_control_violations (entry k v kvs) path =
      one_if (contains forbidden_control_fields k) (key_path path k)
      ++ (find_direct_control_violations v (key_path path k) ++ entry_control_violations kvs path)
