-- ===== src/Bridge/Firewall.antt =====
-- src/fh_agent/bridge/firewall.py: raw fields are reduced to those on a list, and forbidden ones are refused.
pub mod Fields
mod Tests
use autonomous_game_agent.Prelude.{
  String, Bool, true, false, not, List, [], ◌∷◌, if◌then◌else◌, is_empty,
}
use autonomous_game_agent.Prelude.Ids.{contains}
use autonomous_game_agent.Planner.Text.{sorted}
use autonomous_game_agent.Planner.Json.{Json, Entries, no_entries, entry}

pub record NoSpoilerFirewall : Type 0 where
  pub allowed_fields : List String
  pub forbidden_fields : List String

abbrev pub allowed_bridge_fields : List String
allowed_bridge_fields =
    "message_window_visible" ∷ "visible_message_text" ∷ "menu_open" ∷ "visible_menu_items"
    ∷ "combat_ui_visible" ∷ "death_screen_visible" ∷ "player_screen_position"
    ∷ "visible_sprite_screen_positions" ∷ "visible_sprite_visual_hashes" ∷ "screenshot_id" ∷ []

pub data Filtered : Type 0 where
  passed : Entries → Filtered
  firewall_violation : List String → Filtered

-- the forbidden fields of the raw data
unfoldable pub forbidden_in : List String → Entries → List String
forbidden_in fields no_entries = []
forbidden_in fields (entry k v kvs) =
    if contains fields k then k ∷ forbidden_in fields kvs else forbidden_in fields kvs

-- the comprehension of the allowed fields
unfoldable pub allowed_in : List String → Entries → Entries
allowed_in fields no_entries = no_entries
allowed_in fields (entry k v kvs) =
    if contains fields k then entry k v (allowed_in fields kvs) else allowed_in fields kvs

-- `NoSpoilerFirewall.sanitize`
unfoldable pub sanitize : NoSpoilerFirewall → Entries → Filtered
unfolding forbidden_in allowed_in sorted
sanitize firewall raw =
    let forbidden = forbidden_in firewall.forbidden_fields raw in
    if not (is_empty forbidden)
    then firewall_violation (sorted forbidden)
    else passed (allowed_in firewall.allowed_fields raw)
