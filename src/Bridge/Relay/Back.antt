-- ===== src/Bridge/Relay/Back.antt =====
-- What a relay appends, and that the reader of the feed gets it back.
use autonomous_game_agent.Prelude.{ℕ, ◌⊎◌, String, true, Option, some, [], ◌∷◌, ◌++◌, ◌≡◌, length}
use autonomous_game_agent.Planner.Json.{Json, text, object}
use autonomous_game_agent.Planner.Json.Dict.{get}
use autonomous_game_agent.Bridge.Feed.{
  Bytes, newline, PayloadSource, payload, read_record, next_payload,
}
use autonomous_game_agent.Bridge.Feed.Lines.{IsLine}
use autonomous_game_agent.Bridge.Feed.Order.{bytes_of}
use autonomous_game_agent.Bridge.Relay.Keys.{sort_entries, sorted_field}
use autonomous_game_agent.Bridge.Snapshot.{
  BridgeSnapshotRequest, BridgeSnapshotResponse, Unwrapped, raw_payload, mismatched,
}
use autonomous_game_agent.Bridge.Relay.{
  Append, broken, fully, take, not_writable, BridgeSnapshotRelayResult, Relay, done, relay_failed,
  read_snapshot_response,
}

-- The response's envelope and payload name the request, its run, its mode and its screenshot.
pub record IsCorrelated (request : BridgeSnapshotRequest) (response : BridgeSnapshotResponse)
    : Type 0 where
  pub same_request : response.request_id ≡ request.request_id
  pub same_run : response.run_id ≡ request.run_id
  pub run_mode : get "run_mode" response.payload ≡ some (text "bridge-assisted")
  pub screenshot : get "screenshot_id" response.payload ≡ some (text request.screenshot_id)

-- What an unwrapping promises.
abbrev Matched : BridgeSnapshotRequest → BridgeSnapshotResponse → Unwrapped → Type 0
Matched request response (mismatched x) = Unit
Matched request response (raw_payload kvs) =
    (kvs ≡ response.payload) × IsCorrelated request response

module _ (strip : String → String) (decode : Bytes → Option String)
    (strict_loads loads : String → Option Json) (dumps : Json → Option Bytes)
    (request : BridgeSnapshotRequest) (response_file : Option Bytes) (feed : Option Bytes)
    (s : PayloadSource) where
  -- What JSON's writer writes of a value is one line, of which the reader of the feed reads that value.
  abbrev pub IsReadable : Json → Type 0
  IsReadable j =
      (bytes : Bytes)
      → dumps j ≡ some bytes
      → IsLine (bytes ++ newline ∷ [])
        × (read_record decode loads (bytes ++ newline ∷ []) ≡ payload j)

  -- The response that a relay came to append.
  pub record IsAccepted (response : BridgeSnapshotResponse) : Type 0 where
    pub was_read :
        read_snapshot_response strip decode strict_loads dumps response_file ≡ done response
    pub correlated : IsCorrelated request response

  -- A relay that succeeds: of a correlated response, whose payload the next read of the feed returns, with its keys
  -- sorted.
  pub record IsRelayed (r : BridgeSnapshotRelayResult) (feed' : Option Bytes) : Type 0 where
    pub response : BridgeSnapshotResponse
    pub accepted : IsAccepted response
    pub request_id : r.request_id ≡ request.request_id
    pub run_id : r.run_id ≡ request.run_id
    pub screenshot_id : r.screenshot_id ≡ request.screenshot_id
    pub read_back : next_payload decode loads feed' s ≡ (
      payload (object (sort_entries response.payload)),
      record { offset = length (bytes_of feed'); has_consumed_payload = true },
    )
    pub same_fields :
        (key : String)
        → get key (sort_entries response.payload) ≡ sorted_field (get key response.payload)

  -- An append that broke off: the feed holds what it held, and so many bytes of the record of a correlated response.
  pub record IsBroken (progress : Append) (feed' : Option Bytes) : Type 0 where
    pub response : BridgeSnapshotResponse
    pub accepted : IsAccepted response
    pub bytes : Bytes
    pub written : dumps (object (sort_entries response.payload)) ≡ some bytes
    pub count : ℕ
    pub broke_off : progress ≡ broken count
    pub kept : feed' ≡ some (bytes_of feed ++ take count (bytes ++ newline ∷ []))

  abbrev pub Relayed : Append → Relay BridgeSnapshotRelayResult × Option Bytes → Type 0
  Relayed progress (relay_failed not_writable, feed') = (feed' ≡ feed) ⊎ IsBroken progress feed'
  Relayed progress (relay_failed _, feed') = feed' ≡ feed
  Relayed progress (done r, feed') = (progress ≡ fully) × IsRelayed r feed'
