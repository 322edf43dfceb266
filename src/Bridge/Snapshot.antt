-- ===== src/Bridge/Snapshot.antt =====
-- src/fh_agent/bridge/snapshot_request.py and snapshot_response.py: a request that is bound to the latest screenshot,
-- and the raw response that is correlated to it. `run_mode` of a request is the constant "bridge-assisted". Python's
-- `str.strip` is a parameter. Publishing a request to a file is not here.
use autonomous_game_agent.Prelude.{
  String, Bool, true, false, not, Option, none, some, List, [], ◌∷◌, ◌&&◌, if◌then◌else◌, str_eq,
}
use autonomous_game_agent.Prelude.Ids.{contains}
use autonomous_game_agent.Planner.Json.{Json, text, atom, array, object, Entries, no_entries, entry}
use autonomous_game_agent.Planner.Json.Dict.{get}

pub record BridgeSnapshotRequest : Type 0 where
  pub request_id : String
  pub run_id : String
  pub screenshot_id : String

pub record BridgeSnapshotResponse : Type 0 where
  pub request_id : String
  pub run_id : String
  pub payload : Entries

-- `value == "..."` for a value that may be missing
unfoldable pub is_text : Option Json → String → Bool
is_text none t = false
is_text (some (text s)) t = str_eq s t
is_text (some (atom a)) t = false
is_text (some (array vs)) t = false
is_text (some (object kvs)) t = false

-- `extra="forbid"`
unfoldable pub only_keys : List String → Entries → Bool
only_keys keys no_entries = true
only_keys keys (entry k v kvs) = contains keys k && only_keys keys kvs

pub data RequestError : Type 0 where
  blank_id no_screenshot_evidence other_screenshot : RequestError

pub data RequestAnswer : Type 0 where
  requested : BridgeSnapshotRequest → RequestAnswer
  request_refused : RequestError → RequestAnswer

pub data ResponseMismatch : Type 0 where
  other_request other_run other_run_mode other_screenshot_id : ResponseMismatch

pub data Unwrapped : Type 0 where
  raw_payload : Entries → Unwrapped
  mismatched : ResponseMismatch → Unwrapped

module _ (strip : String → String) where
  -- `min_length=1` and `id_must_not_be_blank`: true where they accept
  abbrev pub id_accepted : String → Bool
  id_accepted i = not (str_eq i "") && not (str_eq (strip i) "")

  -- `create_bridge_snapshot_request`, on the answer of the evidence lookup
  unfoldable pub create_bridge_snapshot_request :
      String → String → String → Option String → RequestAnswer
  create_bridge_snapshot_request request_id run_id screenshot_id latest =
      if not (id_accepted request_id && id_accepted run_id && id_accepted screenshot_id)
      then request_refused blank_id
      else elim latest [
        | none ↦ request_refused no_screenshot_evidence
        | some evidence_id ↦
            if not (str_eq evidence_id screenshot_id)
            then request_refused other_screenshot
            else requested
                (record { request_id = request_id; run_id = run_id; screenshot_id = screenshot_id })
      ]

  -- the fields of an envelope; `none` where the constructor raises
  unfoldable pub envelope_fields :
      Option Json → Option Json → Option Json → Option BridgeSnapshotResponse
  envelope_fields (some (text request_id)) (some (text run_id)) (some (object kvs)) =
      if id_accepted request_id && id_accepted run_id
      then some (record { request_id = request_id; run_id = run_id; payload = kvs })
      else none
  envelope_fields request_id run_id payload = none

  -- `BridgeSnapshotResponse.model_validate`
  unfoldable pub validate_envelope : Entries → Option BridgeSnapshotResponse
  unfolding get only_keys envelope_fields
  validate_envelope kvs =
      if only_keys ("request_id" ∷ "run_id" ∷ "payload" ∷ []) kvs
      then envelope_fields (get "request_id" kvs) (get "run_id" kvs) (get "payload" kvs)
      else none

unfoldable pub unwrap_bridge_snapshot_response :
    BridgeSnapshotResponse → BridgeSnapshotRequest → Unwrapped
unfolding is_text get
unwrap_bridge_snapshot_response response request =
    if not (str_eq response.request_id request.request_id)
    then mismatched other_request
    else if not (str_eq response.run_id request.run_id)
    then mismatched other_run
    else if not (is_text (get "run_mode" response.payload) "bridge-assisted")
    then mismatched other_run_mode
    else if not (is_text (get "screenshot_id" response.payload) request.screenshot_id)
    then mismatched other_screenshot_id
    else raw_payload response.payload
