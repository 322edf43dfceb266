-- ===== src/Bridge/Firewall/Tests.antt =====
-- The firewall on a field that is neither allowed nor forbidden, and on one that is forbidden.
use autonomous_game_agent.Prelude.{[], ◌∷◌, ◌≡◌, refl}
use autonomous_game_agent.Prelude.Ids.{contains}
use autonomous_game_agent.Planner.Json.{Entries, text, entry, no_entries}
use autonomous_game_agent.Bridge.Sanitizer.{forbidden_bridge_fields}
use autonomous_game_agent.Bridge.Firewall.{
  NoSpoilerFirewall, allowed_bridge_fields, passed, firewall_violation, sanitize,
}
use autonomous_game_agent.Bridge.Firewall.Fields.{IsFiltered, sanitize-IsFiltered}

abbrev firewall : NoSpoilerFirewall
firewall = record {
  allowed_fields = allowed_bridge_fields;
  forbidden_fields = forbidden_bridge_fields;
}

abbrev raw : Entries
raw = entry "screenshot_id" (text "shot-1") (entry "weather" (text "rain") no_entries)

sanitize-raw : sanitize firewall raw ≡ passed (entry "screenshot_id" (text "shot-1") no_entries)
unfolding sanitize contains
sanitize-raw = refl

sanitize-map_id :
    sanitize firewall (entry "map_id" (text "7") raw) ≡ firewall_violation ("map_id" ∷ [])
unfolding sanitize contains
sanitize-map_id = refl

sanitize-IsFiltered_example : IsFiltered firewall raw (sanitize firewall raw)
sanitize-IsFiltered_example = sanitize-IsFiltered firewall raw
