-- ===== src/Planner/Contract/Tests.antt =====
-- Runs of the validators of src/fh_agent/planner/planner_output.py on small answers in lower case.
use autonomous_game_agent.Prelude.{String, false, [], ◌∷◌, none, some, ◌≡◌, refl, ◌↔◌}
use autonomous_game_agent.Prelude.Ids.{contains}
use autonomous_game_agent.Planner.Text.{decimal}
use autonomous_game_agent.Planner.Json.{
  Json, text, array, object, no_items, item, no_entries, entry,
}
use autonomous_game_agent.Planner.Json.Inside.{Inside}
use autonomous_game_agent.Planner.Scan.Complete.{is_control}
use autonomous_game_agent.Planner.Scan.{find_direct_control_violations}
use autonomous_game_agent.Planner.Hidden.{find_hidden_state_term_violations}
use autonomous_game_agent.Planner.Hidden.Complete.{names_hidden_state}
use autonomous_game_agent.Planner.Contract.{
  hidden_state_terms, reject_direct_control_plans, reject_unsafe_content,
}
use autonomous_game_agent.Planner.Contract.Safe.{answer_passes_iff}

abbrev unchanged : String → String
unchanged s = s

-- `{"goal": "set game_switches", "plan": ["look"]}`
abbrev answer : Json
answer = object (
    entry "goal" (text "set game_switches")
      (entry "plan" (array (item (text "look") no_items)) no_entries))

answer-no_control : reject_direct_control_plans answer ≡ none
unfolding reject_direct_control_plans find_direct_control_violations decimal contains
answer-no_control = refl

answer-hidden_state :
    reject_unsafe_content unchanged answer ≡ some (hidden_state_terms ("goal" ∷ []))
unfolding reject_unsafe_content find_direct_control_violations find_hidden_state_term_violations
    decimal contains
answer-hidden_state = refl

answer_passes_iff_example :
    ((reject_direct_control_plans answer ≡ none)
      ↔ ((v : Json) → Inside v answer → is_control v ≡ false))
    × ((reject_unsafe_content unchanged answer ≡ none) ↔ (
        (v : Json)
        → Inside v answer
        → (is_control v ≡ false) × (names_hidden_state unchanged v ≡ false)))
answer_passes_iff_example = answer_passes_iff unchanged answer
