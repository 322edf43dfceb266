-- ===== src/Bridge/Relay.antt =====
-- src/fh_agent/bridge/snapshot_relay.py: one response that matches its request becomes a record of the local feed.
-- Parameters are `str.strip`, decoding, `strict_loads`, by which JSON is read with constants that are not finite refused,
-- and `dumps`, by which a value is written as one text of JSON in UTF-8, its keys in the order they have. Whether the
-- response can be read, and how far the append comes, are arguments.
pub mod Keys
pub mod Back
mod Tests
use autonomous_game_agent.Prelude.{
  ℕ, zero, suc, String, not, Option, none, some, List, [], ◌∷◌, ◌++◌, if◌then◌else◌,
}
use autonomous_game_agent.Planner.Json.{Json, text, atom, array, object, Entries}
use autonomous_game_agent.Bridge.Feed.{Bytes, newline, ends_with_newline}
use autonomous_game_agent.Bridge.Feed.Order.{bytes_of}
use autonomous_game_agent.Bridge.Relay.Keys.{sort_keys}
use autonomous_game_agent.Bridge.Snapshot.{
  BridgeSnapshotRequest, BridgeSnapshotResponse, ResponseMismatch, Unwrapped, raw_payload,
  mismatched, validate_envelope, unwrap_bridge_snapshot_response,
}

pub data RelayError : Type 0 where
  unreadable incomplete not_utf8 not_json no_object invalid_envelope : RelayError
  not_matching : ResponseMismatch → RelayError
  not_serializable not_writable : RelayError

-- The audit record of a relay; the paths are the caller's.
pub record BridgeSnapshotRelayResult : Type 0 where
  pub request_id : String
  pub run_id : String
  pub screenshot_id : String

pub data Relay (A : Type 0) : Type 0 where
  done : A → Relay A
  relay_failed : RelayError → Relay A

-- How far the append comes: the feed cannot be opened; writing, flushing or syncing raises when so many bytes of the
-- record are in the file; or all of it is done.
pub data Append : Type 0 where
  not_opened : Append
  broken : ℕ → Append
  fully : Append

-- the first `n` bytes
pub take : ℕ → Bytes → Bytes
take zero bytes = []
take (suc n) [] = []
take (suc n) (b ∷ bytes) = b ∷ take n bytes

module _ (strip : String → String) (decode : Bytes → Option String)
    (strict_loads : String → Option Json) (dumps : Json → Option Bytes) where
  -- the envelope in a decoded text
  unfoldable pub envelope_of : Option Json → Relay BridgeSnapshotResponse
  unfolding validate_envelope
  envelope_of none = relay_failed not_json
  envelope_of (some (text t)) = relay_failed no_object
  envelope_of (some (atom a)) = relay_failed no_object
  envelope_of (some (array vs)) = relay_failed no_object
  envelope_of (some (object kvs)) = elim (validate_envelope strip kvs) [
    | none ↦ relay_failed invalid_envelope
    | some response ↦ done response
  ]

  -- `_read_snapshot_response`
  unfoldable pub read_snapshot_response : Option Bytes → Relay BridgeSnapshotResponse
  unfolding envelope_of ends_with_newline
  read_snapshot_response none = relay_failed unreadable
  read_snapshot_response (some bytes) =
      if not (ends_with_newline bytes) then relay_failed incomplete else elim (decode bytes) [
        | none ↦ relay_failed not_utf8
        | some t ↦ envelope_of (strict_loads t)
      ]

  -- the appended record, and the feed after it; opening creates a feed that is missing
  unfoldable pub append_record :
      BridgeSnapshotRequest
      → Append
      → Option Bytes
      → Option Bytes
      → Relay BridgeSnapshotRelayResult × Option Bytes
  unfolding take
  append_record request progress none feed = (relay_failed not_serializable, feed)
  append_record request not_opened (some bytes) feed = (relay_failed not_writable, feed)
  append_record request (broken n) (some bytes) feed =
      (relay_failed not_writable, some (bytes_of feed ++ take n (bytes ++ newline ∷ [])))
  append_record request fully (some bytes) feed = (
    done (record {
      request_id = request.request_id;
      run_id = request.run_id;
      screenshot_id = request.screenshot_id;
    }),
    some (bytes_of feed ++ (bytes ++ newline ∷ [])),
  )

  -- the relay of a response that was read
  unfoldable pub relay_unwrapped :
      BridgeSnapshotRequest
      → Append
      → Unwrapped
      → Option Bytes
      → Relay BridgeSnapshotRelayResult × Option Bytes
  unfolding append_record sort_keys
  relay_unwrapped request progress (mismatched x) feed = (relay_failed (not_matching x), feed)
  relay_unwrapped request progress (raw_payload kvs) feed =
      append_record request progress (dumps (sort_keys (object kvs))) feed

  unfoldable pub relay_bridge_snapshot_response :
      BridgeSnapshotRequest
      → Option Bytes
      → Append
      → Option Bytes
      → Relay BridgeSnapshotRelayResult × Option Bytes
  unfolding relay_unwrapped read_snapshot_response unwrap_bridge_snapshot_response
  relay_bridge_snapshot_response request response_file progress feed =
      elim (read_snapshot_response response_file) [
        | relay_failed x ↦ (relay_failed x, feed)
        | done response ↦
            relay_unwrapped request progress (unwrap_bridge_snapshot_response response request) feed
      ]
