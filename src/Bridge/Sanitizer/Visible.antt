-- ===== src/Bridge/Sanitizer/Visible.antt =====
-- What passes the sanitizer.
use mathlib.Core.List.{append-eq-nil_iff, cons≢nil}
use autonomous_game_agent.Prelude.{
  String, Bool, true, false, not, Option, none, some, List, [], ◌∷◌, ◌≡◌, refl, if_holds, is_empty,
  if◌then◌else◌,
}
use autonomous_game_agent.Prelude.Ids.{contains}
use autonomous_game_agent.Planner.Paths.{split, join}
use autonomous_game_agent.Planner.Traversal.{has_key, IsScan, scan_is_complete}
use autonomous_game_agent.Planner.Json.Inside.{Inside}
use autonomous_game_agent.Planner.Json.{Json, text, atom, array, object, Entries, no_entries, entry}
use autonomous_game_agent.Bridge.Sanitizer.{
  SanitizedBridgePayload, accepted_bridge_fields, forbidden_bridge_fields, payload_accepted,
  find_forbidden_field_paths, item_forbidden_paths, entry_forbidden_paths, unknown_fields,
  Sanitized, visible, blocked, validate_fields, sanitize_bridge_payload,
}

-- An object with a field of hidden state.
unfoldable pub has_forbidden_field : Json → Bool
unfolding has_key
has_forbidden_field (text t) = false
has_forbidden_field (atom a) = false
has_forbidden_field (array vs) = false
has_forbidden_field (object kvs) = has_key (contains forbidden_bridge_fields) kvs

forbidden-IsScan :
    IsScan find_forbidden_field_paths item_forbidden_paths entry_forbidden_paths has_forbidden_field
      (contains forbidden_bridge_fields)
unfolding find_forbidden_field_paths has_forbidden_field
forbidden-IsScan = record {
  on_text = λ t path. (λ e. refl, λ e. refl);
  on_atom = λ a path. (λ e. refl, λ e. refl);
  on_array = λ vs path. (λ e. (refl, e), λ h. h.1);
  on_object = λ kvs path. (λ e. e, λ e. e);
  marks_object = λ kvs. refl;
  on_no_items = λ i path. refl;
  on_item = λ v vs i path. append-eq-nil_iff;
  on_no_entries = λ path. refl;
  on_entry = λ k v kvs path. (
    λ e. let s = split _ _ _ e in (s.0, append-eq-nil_iff.0 s.1),
    λ h. join _ _ _ h.0 (append-eq-nil_iff.1 h.1),
  );
}

-- Every key is one of the accepted fields.
abbrev pub OnlyAccepted : Entries → Type 0
OnlyAccepted no_entries = Unit
OnlyAccepted (entry k v kvs) = (contains accepted_bridge_fields k ≡ true) × OnlyAccepted kvs

unknown_fields-OnlyAccepted : (raw : Entries) → unknown_fields raw ≡ [] → OnlyAccepted raw
unfolding unknown_fields
unknown_fields-OnlyAccepted no_entries e = tt
unknown_fields-OnlyAccepted (entry k v kvs) e =
    at (contains accepted_bridge_fields k) refl e (unknown_fields-OnlyAccepted kvs)
  where
    at :
        (b : Bool)
        → contains accepted_bridge_fields k ≡ b
        → (if b then unknown_fields kvs else k ∷ unknown_fields kvs) ≡ []
        → (unknown_fields kvs ≡ [] → OnlyAccepted kvs)
        → (contains accepted_bridge_fields k ≡ true) × OnlyAccepted kvs
    at true h n rest = (h, rest n)
    at false h n rest = absurd (cons≢nil n)

empty-nil : (xs : List String) → not (is_empty xs) ≡ false → xs ≡ []
empty-nil [] e = refl
empty-nil (x ∷ xs) e = absurd (cc)

-- A payload that is let through: of raw data with accepted fields only, in which no object, at any depth, has a field
-- of hidden state; and the validators of the fields accept it.
pub record IsVisible (fields_of : Entries → Option SanitizedBridgePayload) (raw : Entries)
    (p : SanitizedBridgePayload) : Type 0 where
  pub read : fields_of raw ≡ some p
  pub accepted : payload_accepted p ≡ true
  pub only_accepted : OnlyAccepted raw
  pub unspoiled : (v : Json) → Inside v (object raw) → has_forbidden_field v ≡ false

abbrev pub Sound :
    (Entries → Option SanitizedBridgePayload) → Entries → Sanitized SanitizedBridgePayload → Type 0
Sound fields_of raw (blocked x) = Unit
Sound fields_of raw (visible p) = IsVisible fields_of raw p

pub sanitized-Sound :
    (fields_of : Entries → Option SanitizedBridgePayload) (raw : Entries)
    → Sound fields_of raw (sanitize_bridge_payload fields_of raw)
unfolding sanitize_bridge_payload
sanitized-Sound fields_of raw =
    if_holds (Sound fields_of raw) (not (is_empty (find_forbidden_field_paths (object raw) "")))
      (λ _. tt)
      (λ a.
        if_holds (Sound fields_of raw) (not (is_empty (unknown_fields raw))) (λ _. tt)
          (λ b. at (empty-nil _ a) (empty-nil _ b) (fields_of raw) refl))
  where
    at :
        find_forbidden_field_paths (object raw) "" ≡ []
        → unknown_fields raw ≡ []
        → (o : Option SanitizedBridgePayload) → fields_of raw ≡ o
        → Sound fields_of raw (validate_fields fields_of o)
    at f u none e = tt
    at f u (some p) e =
        if_holds (Sound fields_of raw) (payload_accepted p)
          (λ ok. record {
            read = e;
            accepted = ok;
            only_accepted = unknown_fields-OnlyAccepted raw u;
            unspoiled = (scan_is_complete forbidden-IsScan (object raw) "").0 f;
          })
          (λ _. tt)
