-- ===== src/Planner/Hidden.antt =====
-- The scan for hidden state of src/fh_agent/planner/planner_output.py. Python's `str.lower`, whose tables are
-- those of Unicode, is the parameter `lower`.
use Prim.Native.String.{find, len}
pub mod Complete
use autonomous_game_agent.Prelude.{ℕ, suc, String, Bool, false, List, [], ◌∷◌, ◌++◌, ◌||◌, leb}
use autonomous_game_agent.Planner.Text.{sorted_set}
use autonomous_game_agent.Planner.Paths.{one_if, key_path, index_path, root_path}
use autonomous_game_agent.Planner.Json.{
  Json, text, atom, array, object, Items, no_items, item, Entries, no_entries, entry,
}

abbrev pub forbidden_hidden_state_terms : List String
forbidden_hidden_state_terms =
    "map_id" ∷ "event_id" ∷ "event_name" ∷ "event_comments" ∷ "event_trigger_conditions"
    ∷ "game_switches" ∷ "game_variables" ∷ "enemy_database" ∷ "enemy_hp" ∷ "enemy_resistances"
    ∷ "item_database_effects" ∷ "ending_flags" ∷ "savegame_variables" ∷ []

-- `any(term in lowered for term in terms)`; `find` answers more than the length for a text that does not occur
unfoldable pub any_term : List String → String → Bool
any_term [] lowered = false
any_term (term ∷ terms) lowered = leb (find lowered term) (len lowered) || any_term terms lowered

module _ (lower : String → String) where
  unfoldable pub contains_hidden_state_term : String → Bool
  unfolding any_term
  contains_hidden_state_term value = any_term forbidden_hidden_state_terms (lower value)

  unfoldable mutual
    unfolding contains_hidden_state_term sorted_set root_path key_path index_path

    pub find_hidden_state_term_violations : Json → String → List String
    find_hidden_state_term_violations (text t) path =
        sorted_set (one_if (contains_hidden_state_term t) (root_path path))
    find_hidden_state_term_violations (atom a) path = sorted_set []
    find_hidden_state_term_violations (array vs) path =
        sorted_set (item_hidden_violations vs 0 path)
    find_hidden_state_term_violations (object kvs) path =
        sorted_set (entry_hidden_violations kvs path)

    -- the loop over the elements
    pub item_hidden_violations : Items → ℕ → String → List String
    item_hidden_violations no_items i path = []
    item_hidden_violations (item v vs) i path =
        find_hidden_state_term_violations v (index_path path i)
        ++ item_hidden_violations vs (suc i) path

    -- the loop over the keys
    pub entry_hidden_violations : Entries → String → List String
    entry_hidden_violations no_entries path = []
    entry_hidden_violations (entry k v kvs) path =
        one_if (contains_hidden_state_term k) (key_path path k)
        ++ (find_hidden_state_term_violations v (key_path path k)
            ++ entry_hidden_violations kvs path)
