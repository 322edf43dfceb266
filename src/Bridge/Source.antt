-- ===== src/Bridge/Source.antt =====
-- src/fh_agent/bridge/observation_source.py: one observation for one payload of the feed. The evidence lookup of
-- src/fh_agent/bridge/evidence_sync.py answers with the latest screenshot's evidence ID.
pub mod Shown
pub mod Evidence
mod Tests
use autonomous_game_agent.Prelude.{
  String, Bool, true, false, not, Option, none, some, if◌then◌else◌, str_eq,
}
use autonomous_game_agent.Observation.{Observation}
use autonomous_game_agent.Planner.Json.{Json, text, atom, array, object, Entries}
use autonomous_game_agent.Bridge.Feed.{Reading, payload, exhausted, invalid, inconsistent}
use autonomous_game_agent.Bridge.Snapshot.{is_text}
use autonomous_game_agent.Bridge.Sanitizer.{
  BridgeRunMode, bridge_assisted, debug, SanitizedBridgePayload, Sanitized, visible, blocked,
  SanitizerError,
}
use autonomous_game_agent.Bridge.Adapter.{BridgeReceipt, accept_observation_payload}

pub data SourceError : Type 0 where
  unreadable_payload run_mode_mismatch : SourceError
  sanitizer_error : SanitizerError → SourceError
  missing_screenshot no_screenshot_evidence other_screenshot no_observation : SourceError

pub data BridgeSight : Type 0 where
  observed : Observation → BridgeSight
  source_exhausted : BridgeSight
  source_failed : SourceError → BridgeSight

abbrev pub mode_text : BridgeRunMode → String
mode_text bridge_assisted = "bridge-assisted"
mode_text debug = "debug"

-- `_require_current_screenshot_evidence`, with the lookup's answer
unfoldable pub require_current_screenshot :
    Option String → Option String → Observation → BridgeSight
require_current_screenshot none latest o = source_failed missing_screenshot
require_current_screenshot (some s) none o =
    if str_eq s "" then source_failed missing_screenshot else source_failed no_screenshot_evidence
require_current_screenshot (some s) (some i) o =
    if str_eq s ""
    then source_failed missing_screenshot
    else if not (str_eq s i)
    then source_failed other_screenshot
    else observed o

-- the end of `observe`, where the modes agree
unfoldable pub in_mode : BridgeRunMode → Option String → Option Observation → BridgeSight
unfolding require_current_screenshot
in_mode mode latest none = source_failed no_observation
in_mode bridge_assisted latest (some o) = require_current_screenshot o.screenshot_id latest o
in_mode debug latest (some o) = observed o

module _ (fields_of : Entries → Option SanitizedBridgePayload) where
  unfoldable pub accepted_receipt :
      BridgeRunMode → Option String → Sanitized BridgeReceipt → BridgeSight
  unfolding is_text in_mode
  accepted_receipt mode latest (blocked x) = source_failed (sanitizer_error x)
  accepted_receipt mode latest (visible r) =
      if not (is_text r.run_mode (mode_text mode))
      then source_failed run_mode_mismatch
      else in_mode mode latest r.observation

  -- `observe`, with what the payload source and the lookup answer; the source returns objects only
  unfoldable pub observe : String → BridgeRunMode → Option String → Reading → BridgeSight
  unfolding accepted_receipt accept_observation_payload
  observe run_id mode latest exhausted = source_exhausted
  observe run_id mode latest (invalid x) = source_failed unreadable_payload
  observe run_id mode latest (inconsistent x) = source_failed unreadable_payload
  observe run_id mode latest (payload (object raw)) =
      accepted_receipt mode latest (accept_observation_payload fields_of raw run_id)
  observe run_id mode latest (payload (text t)) = source_failed unreadable_payload
  observe run_id mode latest (payload (atom a)) = source_failed unreadable_payload
  observe run_id mode latest (payload (array vs)) = source_failed unreadable_payload
