-- ===== src/Bridge/Adapter.antt =====
-- src/fh_agent/bridge/bridge_server.py: a raw payload is sanitized and becomes a canonical observation. `none` of the
-- normalisation becomes an invalid payload.
use autonomous_game_agent.Prelude.{
  ◌^◌, String, Option, none, some, List, [], ◌∷◌, ◌++◌, if◌then◌else◌, str_eq,
}
use autonomous_game_agent.Observation.{Observation, VisibleSprite, VisibleTextSpan, UiState, blank}
use autonomous_game_agent.Planner.Json.{Json, Entries}
use autonomous_game_agent.Planner.Json.Dict.{get}
use autonomous_game_agent.Bridge.Sanitizer.{
  SanitizedBridgePayload, Sanitized, visible, blocked, sanitize_bridge_payload, invalid_payload,
}
use autonomous_game_agent.Bridge.Sprites.{normalize_visible_sprites}

-- `run_mode` is the raw value, which is none where the key is missing
pub record BridgeReceipt : Type 0 where
  pub run_mode : Option Json
  pub sanitized_payload : SanitizedBridgePayload
  pub observation : Option Observation

-- `get(key, [])`
abbrev pub list_or_empty {ℓ} : {A : Type ℓ} → Option (List A) → List A
list_or_empty none = []
list_or_empty (some xs) = xs

abbrev pub list_of {ℓ} : {A : Type ℓ} → Option A → List A
list_of none = []
list_of (some x) = x ∷ []

-- the spans of the texts that are not empty
unfoldable pub text_spans : List String → Option String → List VisibleTextSpan
text_spans [] screenshot_id = []
text_spans (t ∷ texts) screenshot_id =
    if str_eq t ""
    then text_spans texts screenshot_id
    else record { text = t; confidence = none; evidence_id = screenshot_id }
      ∷ text_spans texts screenshot_id

-- `_visible_text_spans_from_payload`
unfoldable pub visible_text_spans_from_payload :
    SanitizedBridgePayload → Option String → List VisibleTextSpan
unfolding text_spans
visible_text_spans_from_payload p screenshot_id =
    text_spans (list_of p.visible_message_text ++ list_or_empty p.visible_menu_items) screenshot_id

abbrev pub ui_state_or_unknown : Option UiState → UiState
ui_state_or_unknown none = UiState.unknown
ui_state_or_unknown (some s) = s

-- the observation, with the sprites that were made
abbrev pub observation_with :
    SanitizedBridgePayload → String → List VisibleTextSpan → List VisibleSprite → Observation
observation_with p run_id spans sprites = record (blank run_id) {
  ui_state = ui_state_or_unknown p.ui_state;
  screenshot_id = p.screenshot_id;
  visible_message_text = p.visible_message_text;
  visible_text_spans = spans;
  visible_menu_items = list_or_empty p.visible_menu_items;
  player_screen_position = p.player_screen_position;
  visible_sprite_screen_positions = list_or_empty p.visible_sprite_screen_positions;
  visible_sprite_visual_hashes = list_or_empty p.visible_sprite_visual_hashes;
  visible_sprites = sprites;
  evidence_ids = list_of p.screenshot_id;
}

-- `observation_from_sanitized_bridge_payload`
unfoldable pub observation_from_sanitized_bridge_payload :
    SanitizedBridgePayload → String → Sanitized Observation
unfolding normalize_visible_sprites visible_text_spans_from_payload
observation_from_sanitized_bridge_payload p run_id =
    elim (normalize_visible_sprites [] (list_or_empty p.visible_sprite_screen_positions)
      (list_or_empty p.visible_sprite_visual_hashes) p.screenshot_id (list_of p.screenshot_id)
      (some (2 ^ 1074))) [
        | none ↦ blocked invalid_payload
        | some sprites ↦
            visible (
              observation_with p run_id (visible_text_spans_from_payload p p.screenshot_id) sprites)
      ]

module _ (fields_of : Entries → Option SanitizedBridgePayload) where
  -- `accept_payload`
  unfoldable pub accept_payload : Entries → Sanitized BridgeReceipt
  unfolding sanitize_bridge_payload get
  accept_payload raw = elim (sanitize_bridge_payload fields_of raw) [
    | blocked x ↦ blocked x
    | visible p ↦
        visible
          (record { run_mode = get "run_mode" raw; sanitized_payload = p; observation = none })
  ]

  -- the receipt of an observation
  abbrev pub receipt_of :
      Entries → SanitizedBridgePayload → Sanitized Observation → Sanitized BridgeReceipt
  receipt_of raw p (blocked x) = blocked x
  receipt_of raw p (visible o) =
      visible
        (record { run_mode = get "run_mode" raw; sanitized_payload = p; observation = some o })

  -- `accept_observation_payload`
  unfoldable pub accept_observation_payload : Entries → String → Sanitized BridgeReceipt
  unfolding sanitize_bridge_payload get observation_from_sanitized_bridge_payload
  accept_observation_payload raw run_id = elim (sanitize_bridge_payload fields_of raw) [
    | blocked x ↦ blocked x
    | visible p ↦ receipt_of raw p (observation_from_sanitized_bridge_payload p run_id)
  ]
