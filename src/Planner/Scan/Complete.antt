-- ===== src/Planner/Scan/Complete.antt =====
-- What the scan for direct controls of src/fh_agent/planner/planner_output.py finds.
use mathlib.Core.List.{append-eq-nil_iff}
use autonomous_game_agent.Prelude.{String, Bool, false, [], ◌≡◌, refl, ap, ◌↔◌}
use autonomous_game_agent.Prelude.Ids.{contains}
use autonomous_game_agent.Planner.Text.{sorted_set, sorted_set-nil}
use autonomous_game_agent.Planner.Paths.{split, join}
use autonomous_game_agent.Planner.Traversal.{has_key, IsScan, scan_is_complete}
use autonomous_game_agent.Planner.Json.Inside.{Inside}
use autonomous_game_agent.Planner.Json.{Json, text, atom, array, object}
use autonomous_game_agent.Planner.Scan.{
  forbidden_control_fields, is_action_list, find_direct_control_violations, item_control_violations,
  entry_control_violations,
}

-- A value that itself gives a control: an object with a forbidden key, or a list of primitive actions.
unfoldable pub is_control : Json → Bool
unfolding has_key
is_control (text t) = false
is_control (atom a) = false
is_control (array vs) = is_action_list vs
is_control (object kvs) = has_key (contains forbidden_control_fields) kvs

control-IsScan :
    IsScan find_direct_control_violations item_control_violations entry_control_violations
      is_control
      (contains forbidden_control_fields)
unfolding find_direct_control_violations is_control sorted_set
control-IsScan = record {
  on_text = λ t path. (λ e. refl, λ e. refl);
  on_atom = λ a path. (λ e. refl, λ e. refl);
  on_array =
      λ vs path. (λ e. split _ _ _ (sorted_set-nil _ e), λ h. ap sorted_set (join _ _ _ h.0 h.1));
  on_object = λ kvs path. (λ e. sorted_set-nil _ e, λ e. ap sorted_set e);
  marks_object = λ kvs. refl;
  on_no_items = λ i path. refl;
  on_item = λ v vs i path. append-eq-nil_iff;
  on_no_entries = λ path. refl;
  on_entry = λ k v kvs path. (
    λ e. let s = split _ _ _ e in (s.0, append-eq-nil_iff.0 s.1),
    λ h. join _ _ _ h.0 (append-eq-nil_iff.1 h.1),
  );
}

-- The scan of a value finds nothing exactly when no value in it, at any depth and itself included, is an object
-- with a forbidden key or a list of at least one item, all of whose items are names of primitive actions.
pub scan_finds_every_control :
    (j : Json) (path : String)
    → (find_direct_control_violations j path ≡ [])
      ↔ ((v : Json) → Inside v j → is_control v ≡ false)
scan_finds_every_control j path = scan_is_complete control-IsScan j path
