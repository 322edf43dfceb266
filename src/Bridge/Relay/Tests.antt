-- ===== src/Bridge/Relay/Tests.antt =====
-- A relay of a matching response, whose bytes are told apart by their first one.
use autonomous_game_agent.Prelude.{
  String, Option, none, some, [], ◌∷◌, ◌≡◌, refl, if◌then◌else◌, ◌==◌,
}
use autonomous_game_agent.Prelude.Ids.{contains}
use autonomous_game_agent.Planner.Json.{Json, text, object, Entries, no_entries, entry}
use autonomous_game_agent.Bridge.Feed.{Bytes, newline, payload, ends_with_newline}
use autonomous_game_agent.Bridge.Snapshot.{
  BridgeSnapshotRequest, BridgeSnapshotResponse, validate_envelope,
}
use autonomous_game_agent.Bridge.Relay.{
  broken, not_writable, relay_failed, read_snapshot_response, relay_bridge_snapshot_response,
}

abbrev same : String → String
same t = t

abbrev request : BridgeSnapshotRequest
request = record { request_id = "request-1"; run_id = "run"; screenshot_id = "shot-1" }

abbrev visible : Entries
visible =
    entry "ui_state" (text "menu")
      (entry "run_mode" (text "bridge-assisted") (entry "screenshot_id" (text "shot-1") no_entries))

abbrev sorted_visible : Entries
sorted_visible =
    entry "run_mode" (text "bridge-assisted")
      (entry "screenshot_id" (text "shot-1") (entry "ui_state" (text "menu") no_entries))

abbrev envelope : Entries
envelope =
    entry "request_id" (text "request-1")
      (entry "run_id" (text "run") (entry "payload" (object visible) no_entries))

abbrev as_text : Bytes → Option String
as_text [] = none
as_text (b ∷ bytes) = if b == 1 then some "record" else some "envelope"

abbrev strict_loads : String → Option Json
strict_loads t = some (object envelope)

abbrev loads : String → Option Json
loads t = some (object sorted_visible)

abbrev dumps : Json → Option Bytes
dumps j = some (1 ∷ [])

abbrev response_bytes : Bytes
response_bytes = 2 ∷ newline ∷ []

abbrev visible_response : BridgeSnapshotResponse
visible_response = record { request_id = "request-1"; run_id = "run"; payload = visible }

-- A write that breaks off after its first byte leaves it in the feed.
relay-broken :
    relay_bridge_snapshot_response same as_text strict_loads dumps request
      (some response_bytes)
      (broken 1)
      none
    ≡ (relay_failed not_writable, some (1 ∷ []))
unfolding relay_bridge_snapshot_response read_snapshot_response ends_with_newline validate_envelope
    contains
relay-broken = refl
