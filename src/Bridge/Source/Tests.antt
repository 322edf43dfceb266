-- ===== src/Bridge/Source/Tests.antt =====
-- A payload of the bridge with one sprite, in a run that the bridge assists.
use autonomous_game_agent.Prelude.{◌^◌, Option, none, some, [], ◌∷◌, ◌≡◌, refl}
use autonomous_game_agent.Prelude.Int.{pos}
use autonomous_game_agent.Prelude.Ids.{contains}
use autonomous_game_agent.Observation.{UiState, VisibleSprite}
use autonomous_game_agent.Planner.Json.{
  Entries, text, object, array, entry, item, no_items, no_entries,
}
use autonomous_game_agent.Planner.Text.{decimal}
use autonomous_game_agent.Bridge.Feed.{payload}
use autonomous_game_agent.Bridge.Sanitizer.{
  SanitizedBridgePayload, bridge_assisted, is_visual_hash, blocked, forbidden_bridge_fields_blocked,
  sanitize_bridge_payload,
}
use autonomous_game_agent.Bridge.Source.{
  BridgeSight, observed, source_exhausted, source_failed, observe,
}
use autonomous_game_agent.Bridge.Source.Evidence.{Sighted, observation-IsSighted}

abbrev sprite_payload : SanitizedBridgePayload
sprite_payload = record {
  run_mode = bridge_assisted;
  visible_message_text = none;
  visible_menu_items = none;
  ui_state = some UiState.field;
  player_screen_position = some (pos 1, pos 2);
  visible_sprite_screen_positions = some ((pos 3, pos 4) ∷ []);
  visible_sprite_visual_hashes = some ("phash:0123abcd" ∷ []);
  screenshot_id = some "shot-1";
}

abbrev fields : Entries → Option SanitizedBridgePayload
fields raw = some sprite_payload

abbrev raw : Entries
raw =
    entry "run_mode" (text "bridge-assisted")
      (entry "ui_state" (text "field") (entry "screenshot_id" (text "shot-1") no_entries))

abbrev sprites_of : BridgeSight → Option VisibleSprite
sprites_of (observed o) = elim o.visible_sprites as (λ _. Option VisibleSprite) [
  | [] ↦ none
  | s ∷ r ↦ some s
]
sprites_of source_exhausted = none
sprites_of (source_failed x) = none

observe-sprite :
    sprites_of (observe fields "run" bridge_assisted (some "shot-1") (payload (object raw)))
    ≡ some (record {
      screen_position = (pos 3, pos 4);
      visual_hash = some "phash:0123abcd";
      confidence = some (2 ^ 1074);
      evidence_id = some "shot-1";
    })
unfolding observe contains is_visual_hash
observe-sprite = refl

-- A field of hidden state is found in a list of objects.
sanitize-hidden :
    sanitize_bridge_payload fields (
      entry "ui_state"
        (array (item (object (entry "enemy_hp" (text "9") no_entries)) no_items))
        raw)
    ≡ blocked (forbidden_bridge_fields_blocked ("ui_state[0].enemy_hp" ∷ []))
unfolding sanitize_bridge_payload contains decimal
sanitize-hidden = refl

observation-IsSighted_example :
    Sighted fields "run" bridge_assisted
      (some "shot-1")
      (payload (object raw))
      (observe fields "run" bridge_assisted (some "shot-1") (payload (object raw)))
observation-IsSighted_example =
    observation-IsSighted fields "run" bridge_assisted (some "shot-1") (payload (object raw))
