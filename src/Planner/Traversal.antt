-- ===== src/Planner/Traversal.antt =====
-- What the recursive scans of src/fh_agent/planner/planner_output.py have in common, and that they are complete.
use autonomous_game_agent.Prelude.{
  ℕ, suc, String, Bool, false, List, [], ◌||◌, ◌≡◌, refl, sym, ◌∙◌, ◌↔◌,
}
use autonomous_game_agent.Planner.Paths.{key_path, index_path, neither, left_off, right_off}
use autonomous_game_agent.Planner.Json.Inside.{
  Inside, whole, in_array, in_object, InItems, at_item, past_item, InEntries, at_entry, past_entry,
}
use autonomous_game_agent.Planner.Json.{
  Json, text, atom, array, object, Atom, Items, no_items, item, Entries, no_entries, entry,
}

-- An object has a key that a test marks.
unfoldable pub has_key : (String → Bool) → Entries → Bool
has_key marks no_entries = false
has_key marks (entry k v kvs) = marks k || has_key marks kvs

-- A scan by three functions that find nothing exactly where nothing is marked on the spot and nothing is found
-- further in.
pub record IsScan (on_value : Json → String → List String)
    (on_items : Items → ℕ → String → List String) (on_entries : Entries → String → List String)
    (marks : Json → Bool) (marks_key : String → Bool) : Type 0 where
  pub on_text : (t path : String) → (on_value (text t) path ≡ []) ↔ (marks (text t) ≡ false)
  pub on_atom :
      (a : Atom) (path : String) → (on_value (atom a) path ≡ []) ↔ (marks (atom a) ≡ false)
  pub on_array :
      (vs : Items) (path : String)
      → (on_value (array vs) path ≡ []) ↔ ((marks (array vs) ≡ false) × (on_items vs 0 path ≡ []))
  pub on_object :
      (kvs : Entries) (path : String)
      → (on_value (object kvs) path ≡ []) ↔ (on_entries kvs path ≡ [])
  pub marks_object : (kvs : Entries) → marks (object kvs) ≡ has_key marks_key kvs
  pub on_no_items : (i : ℕ) (path : String) → on_items no_items i path ≡ []
  pub on_item :
      (v : Json) (vs : Items) (i : ℕ) (path : String)
      → (on_items (item v vs) i path ≡ [])
        ↔ ((on_value v (index_path path i) ≡ []) × (on_items vs (suc i) path ≡ []))
  pub on_no_entries : (path : String) → on_entries no_entries path ≡ []
  pub on_entry :
      (k : String) (v : Json) (kvs : Entries) (path : String)
      → (on_entries (entry k v kvs) path ≡ []) ↔ (
          (marks_key k ≡ false)
          × ((on_value v (key_path path k) ≡ []) × (on_entries kvs path ≡ [])))

module _ {on_value : Json → String → List String} {on_items : Items → ℕ → String → List String}
    {on_entries : Entries → String → List String} {marks : Json → Bool} {marks_key : String → Bool}
    (s : IsScan on_value on_items on_entries marks marks_key) where
  unmarked_keys :
      (kvs : Entries) (path : String) → on_entries kvs path ≡ [] → has_key marks_key kvs ≡ false
  unfolding has_key
  unmarked_keys no_entries path e = refl
  unmarked_keys (entry k v kvs) path e =
      let parts = (s.on_entry k v kvs path).0 e in
      neither _ _ parts.0 (unmarked_keys kvs path parts.1.1)

  unmarked_itself : (j : Json) (path : String) → on_value j path ≡ [] → marks j ≡ false
  unmarked_itself (text t) path e = (s.on_text t path).0 e
  unmarked_itself (atom a) path e = (s.on_atom a path).0 e
  unmarked_itself (array vs) path e = ((s.on_array vs path).0 e).0
  unmarked_itself (object kvs) path e =
      s.marks_object kvs ∙ unmarked_keys kvs path ((s.on_object kvs path).0 e)

  mutual
    unmarked_inside :
        {v j : Json} (path : String) → Inside v j → on_value j path ≡ [] → marks v ≡ false
    unmarked_inside {j = j} path whole e = unmarked_itself j path e
    unmarked_inside path (in_array {vs} m) e =
        unmarked_among_items 0 path m ((s.on_array vs path).0 e).1
    unmarked_inside path (in_object {kvs} m) e =
        unmarked_among_entries path m ((s.on_object kvs path).0 e)

    unmarked_among_items :
        {v : Json} {vs : Items} (i : ℕ) (path : String)
        → InItems v vs
        → on_items vs i path ≡ []
        → marks v ≡ false
    unmarked_among_items i path (at_item {w} {vs} m) e =
        unmarked_inside (index_path path i) m ((s.on_item w vs i path).0 e).0
    unmarked_among_items i path (past_item {w} {vs} m) e =
        unmarked_among_items (suc i) path m ((s.on_item w vs i path).0 e).1

    unmarked_among_entries :
        {v : Json} {kvs : Entries} (path : String)
        → InEntries v kvs
        → on_entries kvs path ≡ []
        → marks v ≡ false
    unmarked_among_entries path (at_entry {k} {w} {kvs} m) e =
        unmarked_inside (key_path path k) m ((s.on_entry k w kvs path).0 e).1.0
    unmarked_among_entries path (past_entry {k} {w} {kvs} m) e =
        unmarked_among_entries path m ((s.on_entry k w kvs path).0 e).1.1

  mutual
    unfolding has_key

    nothing_found :
        (j : Json) (path : String)
        → ((v : Json) → Inside v j → marks v ≡ false)
        → on_value j path ≡ []
    nothing_found (text t) path h = (s.on_text t path).1 (h (text t) whole)
    nothing_found (atom a) path h = (s.on_atom a path).1 (h (atom a) whole)
    nothing_found (array vs) path h =
        (s.on_array vs path).1
          (h (array vs) whole, nothing_among_items vs 0 path λ v m. h v (in_array m))
    nothing_found (object kvs) path h = (s.on_object kvs path).1 (
        nothing_among_entries kvs path (sym (s.marks_object kvs) ∙ h (object kvs) whole)
          λ v m. h v (in_object m))

    nothing_among_items :
        (vs : Items) (i : ℕ) (path : String)
        → ((v : Json) → InItems v vs → marks v ≡ false)
        → on_items vs i path ≡ []
    nothing_among_items no_items i path h = s.on_no_items i path
    nothing_among_items (item w vs) i path h = (s.on_item w vs i path).1 (
      nothing_found w (index_path path i) (λ v m. h v (at_item m)),
      nothing_among_items vs (suc i) path (λ v m. h v (past_item m)),
    )

    nothing_among_entries :
        (kvs : Entries) (path : String)
        → has_key marks_key kvs ≡ false
        → ((v : Json) → InEntries v kvs → marks v ≡ false)
        → on_entries kvs path ≡ []
    nothing_among_entries no_entries path off h = s.on_no_entries path
    nothing_among_entries (entry k w kvs) path off h = (s.on_entry k w kvs path).1 (
      left_off _ _ off,
      (
        nothing_found w (key_path path k) (λ v m. h v (at_entry m)),
        nothing_among_entries kvs path (right_off _ _ off) (λ v m. h v (past_entry m)),
      ),
    )

  -- A scan of a value finds nothing exactly when it marks no value in it, at any depth and itself included.
  pub scan_is_complete :
      (j : Json) (path : String)
      → (on_value j path ≡ []) ↔ ((v : Json) → Inside v j → marks v ≡ false)
  scan_is_complete j path = (λ e v m. unmarked_inside path m e, λ h. nothing_found j path h)
