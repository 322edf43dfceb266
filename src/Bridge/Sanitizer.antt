-- ===== src/Bridge/Sanitizer.antt =====
-- src/fh_agent/bridge/sanitizer.py: raw payloads of the bridge are reduced to visible fields. Reading the fields from
-- raw data by pydantic is a parameter; unknown fields and the validators of the fields are checked here.
mod Hash
pub mod Visible
unfoldable pub use Hash.{is_visual_hash}
use autonomous_game_agent.Prelude.{
  ℕ, suc, String, Bool, true, false, not, Option, none, some, List, [], ◌∷◌, ◌++◌, ◌&&◌,
  if◌then◌else◌, is_empty,
}
use autonomous_game_agent.Prelude.Int.{ℤ, pos, negsuc}
use autonomous_game_agent.Prelude.Ids.{contains}
use autonomous_game_agent.Observation.{UiState}
use autonomous_game_agent.Planner.Paths.{one_if, key_path, index_path}
use autonomous_game_agent.Planner.Text.{sorted_set, sorted}
use autonomous_game_agent.Planner.Json.{
  Json, text, atom, array, object, Items, no_items, item, Entries, no_entries, entry,
}

pub data BridgeRunMode : Type 0 where
  bridge_assisted debug : BridgeRunMode

abbrev pub accepted_bridge_fields : List String
accepted_bridge_fields =
    "visible_message_text" ∷ "visible_menu_items" ∷ "ui_state" ∷ "player_screen_position"
    ∷ "visible_sprite_screen_positions" ∷ "visible_sprite_visual_hashes" ∷ "screenshot_id"
    ∷ "run_mode" ∷ []

abbrev pub forbidden_bridge_fields : List String
forbidden_bridge_fields =
    "map_id" ∷ "event_id" ∷ "event_name" ∷ "event_comments" ∷ "event_trigger_conditions"
    ∷ "game_switches" ∷ "game_variables" ∷ "enemy_database" ∷ "enemy_hp" ∷ "enemy_resistances"
    ∷ "item_database_effects" ∷ "ending_flags" ∷ "savegame_variables" ∷ []

pub record SanitizedBridgePayload : Type 0 where
  pub run_mode : BridgeRunMode
  pub visible_message_text : Option String
  pub visible_menu_items : Option (List String)
  pub ui_state : Option UiState
  pub player_screen_position : Option (ℤ × ℤ)
  pub visible_sprite_screen_positions : Option (List (ℤ × ℤ))
  pub visible_sprite_visual_hashes : Option (List String)
  pub screenshot_id : Option String

abbrev pub is_negative : ℤ → Bool
is_negative (pos n) = false
is_negative (negsuc n) = true

-- `any(coordinate < 0 for coordinate in position)`, negated
abbrev pub on_screen : ℤ × ℤ → Bool
on_screen (x, y) = not (is_negative x) && not (is_negative y)

unfoldable pub all_on_screen : List (ℤ × ℤ) → Bool
all_on_screen [] = true
all_on_screen (p ∷ positions) = on_screen p && all_on_screen positions

unfoldable pub all_hashes : List String → Bool
all_hashes [] = true
all_hashes (h ∷ hashes) = is_visual_hash h && all_hashes hashes

-- what a validator says of a field that may be missing
abbrev pub if_given {ℓ} : {A : Type ℓ} → (A → Bool) → Option A → Bool
if_given accepts none = true
if_given accepts (some a) = accepts a

-- the three field validators: true where they return
unfoldable pub payload_accepted : SanitizedBridgePayload → Bool
unfolding all_on_screen all_hashes
payload_accepted p =
    if_given on_screen p.player_screen_position
    && if_given all_on_screen p.visible_sprite_screen_positions
    && if_given all_hashes p.visible_sprite_visual_hashes

-- `find_forbidden_field_paths`, with the default fields
unfoldable mutual
  unfolding key_path index_path

  pub find_forbidden_field_paths : Json → String → List String
  find_forbidden_field_paths (text t) path = []
  find_forbidden_field_paths (atom a) path = []
  find_forbidden_field_paths (array vs) path = item_forbidden_paths vs 0 path
  find_forbidden_field_paths (object kvs) path = entry_forbidden_paths kvs path

  -- the loop over the elements
  pub item_forbidden_paths : Items → ℕ → String → List String
  item_forbidden_paths no_items i path = []
  item_forbidden_paths (item v vs) i path =
      find_forbidden_field_paths v (index_path path i) ++ item_forbidden_paths vs (suc i) path

  -- the loop over the keys
  pub entry_forbidden_paths : Entries → String → List String
  entry_forbidden_paths no_entries path = []
  entry_forbidden_paths (entry k v kvs) path =
      one_if (contains forbidden_bridge_fields k) (key_path path k)
      ++ (find_forbidden_field_paths v (key_path path k) ++ entry_forbidden_paths kvs path)

-- `set(raw_payload) - ACCEPTED_BRIDGE_FIELDS`, before it is a set
unfoldable pub unknown_fields : Entries → List String
unknown_fields no_entries = []
unknown_fields (entry k v kvs) =
    if contains accepted_bridge_fields k then unknown_fields kvs else k ∷ unknown_fields kvs

pub data SanitizerError : Type 0 where
  forbidden_bridge_fields_blocked unknown_bridge_fields : List String → SanitizerError
  invalid_payload : SanitizerError

pub data Sanitized (A : Type 0) : Type 0 where
  visible : A → Sanitized A
  blocked : SanitizerError → Sanitized A

module _ (fields_of : Entries → Option SanitizedBridgePayload) where
  -- the end of `sanitize_bridge_payload`: the model's fields and validators
  unfoldable pub validate_fields : Option SanitizedBridgePayload → Sanitized SanitizedBridgePayload
  unfolding payload_accepted
  validate_fields none = blocked invalid_payload
  validate_fields (some p) = if payload_accepted p then visible p else blocked invalid_payload

  -- `sanitize_bridge_payload`; the fields of its result but `run_mode` that are not None are the visible output
  unfoldable pub sanitize_bridge_payload : Entries → Sanitized SanitizedBridgePayload
  unfolding find_forbidden_field_paths unknown_fields validate_fields sorted_set sorted
  sanitize_bridge_payload raw =
      let forbidden = find_forbidden_field_paths (object raw) "" in
      let unknown = unknown_fields raw in
      if not (is_empty forbidden)
      then blocked (forbidden_bridge_fields_blocked (sorted forbidden))
      else if not (is_empty unknown)
      then blocked (unknown_bridge_fields (sorted_set unknown))
      else validate_fields (fields_of raw)
