-- ===== src/Planner/Scan/Tests.antt =====
-- Runs of the scan for direct controls of src/fh_agent/planner/planner_output.py on small values.
use autonomous_game_agent.Prelude.{[], ◌∷◌, ◌≡◌, refl}
use autonomous_game_agent.Planner.Json.{
  Json, text, array, object, no_items, item, no_entries, entry,
}
use autonomous_game_agent.Planner.Text.{decimal}
use autonomous_game_agent.Prelude.Ids.{contains}
use autonomous_game_agent.Planner.Scan.{find_direct_control_violations}

-- `{"goal": "leave", "plan": [{"keys": "w"}, ["wait", "cancel"]]}`
abbrev plan : Json
plan = object (
    entry "goal" (text "leave") (
      entry "plan"
        (array (
          item (object (entry "keys" (text "w") no_entries))
            (item (array (item (text "wait") (item (text "cancel") no_items))) no_items)))
        no_entries))

plan-violations : find_direct_control_violations plan "" ≡ "plan[0].keys" ∷ "plan[1]" ∷ []
unfolding find_direct_control_violations decimal contains
plan-violations = refl
