-- ===== src/Planner/Hidden/Complete.antt =====
-- What the scan for hidden state of src/fh_agent/planner/planner_output.py finds.
use mathlib.Core.List.{append-eq-nil_iff}
use autonomous_game_agent.Prelude.{String, Bool, false, [], ◌≡◌, refl, ap, ◌↔◌}
use autonomous_game_agent.Planner.Text.{sorted_set, sorted_set-nil}
use autonomous_game_agent.Planner.Paths.{one_if-nil, one_if-off, root_path, split, join}
use autonomous_game_agent.Planner.Traversal.{has_key, IsScan, scan_is_complete}
use autonomous_game_agent.Planner.Json.Inside.{Inside}
use autonomous_game_agent.Planner.Json.{Json, text, atom, array, object}
use autonomous_game_agent.Planner.Hidden.{
  contains_hidden_state_term, find_hidden_state_term_violations, item_hidden_violations,
  entry_hidden_violations,
}

module _ (lower : String → String) where
  -- A value that itself names hidden state: a text, or an object with a key, that contains a forbidden term.
  unfoldable pub names_hidden_state : Json → Bool
  unfolding has_key
  names_hidden_state (text t) = contains_hidden_state_term lower t
  names_hidden_state (atom a) = false
  names_hidden_state (array vs) = false
  names_hidden_state (object kvs) = has_key (contains_hidden_state_term lower) kvs

  hidden-IsScan :
      IsScan
        (find_hidden_state_term_violations lower)
        (item_hidden_violations lower)
        (entry_hidden_violations lower)
        names_hidden_state
        (contains_hidden_state_term lower)
  unfolding find_hidden_state_term_violations names_hidden_state sorted_set
  hidden-IsScan = record {
    on_text = λ t path. (
      λ e. one_if-nil _ (root_path path) (sorted_set-nil _ e),
      λ e. ap sorted_set (one_if-off _ (root_path path) e),
    );
    on_atom = λ a path. (λ e. refl, λ e. refl);
    on_array = λ vs path. (λ e. (refl, sorted_set-nil _ e), λ h. ap sorted_set h.1);
    on_object = λ kvs path. (λ e. sorted_set-nil _ e, λ e. ap sorted_set e);
    marks_object = λ kvs. refl;
    on_no_items = λ i path. refl;
    on_item = λ v vs i path. append-eq-nil_iff;
    on_no_entries = λ path. refl;
    on_entry = λ k v kvs path. (
      λ e. let s = split _ _ _ e in (s.0, append-eq-nil_iff.0 s.1),
      λ h. join _ _ _ h.0 (append-eq-nil_iff.1 h.1),
    );
  }

  -- The scan of a value finds nothing exactly when no value in it, at any depth and itself included, is a text or an
  -- object with a key that, in lower case, contains a term of hidden state.
  pub scan_finds_every_hidden_term :
      (j : Json) (path : String)
      → (find_hidden_state_term_violations lower j path ≡ [])
        ↔ ((v : Json) → Inside v j → names_hidden_state v ≡ false)
  scan_finds_every_hidden_term j path = scan_is_complete hidden-IsScan j path
