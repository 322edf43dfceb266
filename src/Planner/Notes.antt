-- ===== src/Planner/Notes.antt =====
-- The notes of a planning context: `ReflectionNote` of src/fh_agent/planner/planner_output.py, and the functions of
-- src/fh_agent/planner/context.py that make notes, a risk limit and questions of what a memory summary holds.
-- By `fields_of` and `risk_fields_of` pydantic reads the fields of a mapping; a function that raises gives none.
use Prim.Native.String.{◌∷◌ as ◌∷ₛ◌}
use autonomous_game_agent.Prelude.{
  ◌*◌, ◌^◌, String, Bool, true, false, Option, none, some, List, [], ◌∷◌, is_empty, if◌then◌else◌,
  str_eq,
}
use autonomous_game_agent.Planner.Json.{
  Json, text, atom, array, object, Items, no_items, item, Entries,
}
use autonomous_game_agent.Planner.Json.Dict.{get, put_last, pop, set_default, keys}
use autonomous_game_agent.Planner.Output.{RiskLimit, risk_accepted}
use autonomous_game_agent.Manager.Replan.{
  OutcomeNote, Item, outcome, foreign, MemoryValue, sequence, other,
}

pub data NoteStatus : Type 0 where
  observed_fact validated_rule hypothesis : NoteStatus

pub record ReflectionNote : Type 0 where
  pub status : NoteStatus
  pub note : String
  pub evidence_ids : List String

abbrev pub is_factual : NoteStatus → Bool
is_factual observed_fact = true
is_factual validated_rule = true
is_factual hypothesis = false

-- `factual_notes_require_evidence`: the note, or none where it raises
unfoldable pub validated_note : ReflectionNote → Option ReflectionNote
validated_note n = elim (is_factual n.status) [
  | true ↦ if is_empty n.evidence_ids then none else some n
  | false ↦ some n
]

-- What a summary holds besides sequences and the notes of outcomes: objects of the two models, and plain values.
-- A sequence of the summary is a `sequence`, also where it is plain; an array is read in the same way.
pub data Raw : Type 0 where
  note_object : ReflectionNote → Raw
  risk_object : RiskLimit → Raw
  plain : Json → Raw

-- the elements of a plain sequence
abbrev pub raw_items : Items → List (Item Raw)
raw_items no_items = []
raw_items (item v vs) = foreign (plain v) ∷ raw_items vs

abbrev pub status_text : NoteStatus → String
status_text observed_fact = "observed_fact"
status_text validated_rule = "validated_rule"
status_text hypothesis = "hypothesis"

-- `if "note" not in payload and "claim" in payload`
unfoldable pub claim_as_note : Entries → Entries
unfolding get put_last
claim_as_note kvs = elim (get "note" kvs) [
  | some v ↦ kvs
  | none ↦ elim (get "claim" kvs) [ none ↦ kvs | some claim ↦ put_last "note" claim kvs ]
]

-- the payload of a mapping
unfoldable pub payload_of : NoteStatus → Entries → Entries
unfolding set_default claim_as_note pop
payload_of default_status kvs =
    pop "claim" (claim_as_note (set_default "status" (text (status_text default_status)) kvs))

-- the status that a text names
unfoldable pub status_of : String → Option NoteStatus
status_of t =
    if str_eq t "observed_fact"
    then some observed_fact
    else if str_eq t "validated_rule"
    then some validated_rule
    else if str_eq t "hypothesis"
    then some hypothesis
    else none

-- The note of an outcome is a mapping of the three fields, so the payload is the mapping itself.
unfoldable pub note_of_outcome : OutcomeNote → Option ReflectionNote
unfolding status_of validated_note
note_of_outcome n = elim (status_of n.status) [
  | none ↦ none
  | some s ↦ validated_note (record { status = s; note = n.note; evidence_ids = n.evidence_ids })
]

-- how the loop goes on after an item: it raises, passes the item by, or appends its note
abbrev pub and_note :
    Option (Option ReflectionNote) → Option (List ReflectionNote) → Option (List ReflectionNote)
and_note none notes = none
and_note (some none) notes = notes
and_note (some (some n)) none = none
and_note (some (some n)) (some notes) = some (n ∷ notes)

abbrev pub appended : Option ReflectionNote → Option (Option ReflectionNote)
appended none = none
appended (some n) = some (some n)

abbrev checked_note : Option ReflectionNote → Option ReflectionNote
unfolding validated_note
checked_note none = none
checked_note (some n) = validated_note n

module _ (fields_of : Entries → Option ReflectionNote) where
  -- the body of the loop
  unfoldable pub coerce_item : NoteStatus → Item Raw → Option (Option ReflectionNote)
  unfolding payload_of note_of_outcome validated_note
  coerce_item default_status (outcome n) = appended (note_of_outcome n)
  coerce_item default_status (foreign (note_object n)) = some (some n)
  coerce_item default_status (foreign (risk_object r)) = some none
  coerce_item default_status (foreign (plain (text t))) =
      appended (validated_note (record { status = default_status; note = t; evidence_ids = [] }))
  coerce_item default_status (foreign (plain (object kvs))) =
      appended (checked_note (fields_of (payload_of default_status kvs)))
  coerce_item default_status (foreign (plain (array vs))) = some none
  coerce_item default_status (foreign (plain (atom a))) = some none

  -- the loop of `_coerce_reflection_notes`
  unfoldable pub coerce_items : NoteStatus → List (Item Raw) → Option (List ReflectionNote)
  unfolding coerce_item
  coerce_items default_status [] = some []
  coerce_items default_status (x ∷ items) =
      and_note (coerce_item default_status x) (coerce_items default_status items)

  -- `_coerce_reflection_notes(summary.get(key, []), ...)`
  unfoldable pub coerce_reflection_notes :
      NoteStatus → Option (MemoryValue Raw) → Option (List ReflectionNote)
  unfolding coerce_items
  coerce_reflection_notes default_status none = some []
  coerce_reflection_notes default_status (some (sequence items)) = coerce_items default_status items
  coerce_reflection_notes default_status (some (other (plain (array vs)))) =
      coerce_items default_status (raw_items vs)
  coerce_reflection_notes default_status (some (other (plain (text t)))) = some []
  coerce_reflection_notes default_status (some (other (plain (object kvs)))) = some []
  coerce_reflection_notes default_status (some (other (plain (atom a)))) = some []
  coerce_reflection_notes default_status (some (other (note_object n))) = some []
  coerce_reflection_notes default_status (some (other (risk_object r))) = some []

-- The float 0.4 is 3602879701896397 / 2^53.
abbrev pub default_risk : RiskLimit
default_risk = record { avoid_known_dangers = true; max_danger_score = 3602879701896397 * 2 ^ 1021 }

abbrev checked_risk : Option RiskLimit → Option RiskLimit
checked_risk none = none
checked_risk (some r) = if risk_accepted r then some r else none

-- `_coerce_risk_limit(summary.get("risk_constraints"))`
unfoldable pub coerce_risk_limit :
    (Entries → Option RiskLimit) → Option (MemoryValue Raw) → Option RiskLimit
coerce_risk_limit risk_fields_of (some (other (risk_object r))) = some r
coerce_risk_limit risk_fields_of (some (other (plain (object kvs)))) =
    checked_risk (risk_fields_of kvs)
coerce_risk_limit risk_fields_of (some (other (plain (array vs)))) = some default_risk
coerce_risk_limit risk_fields_of (some (other (plain (text t)))) = some default_risk
coerce_risk_limit risk_fields_of (some (other (plain (atom a)))) = some default_risk
coerce_risk_limit risk_fields_of (some (other (note_object n))) = some default_risk
coerce_risk_limit risk_fields_of (some (sequence items)) = some default_risk
coerce_risk_limit risk_fields_of none = some default_risk

abbrev and_text : String → Option (List String) → Option (List String)
and_text t none = none
and_text t (some ts) = some (t ∷ ts)

-- a list of which every element must be a text
unfoldable pub text_items : List (Item Raw) → Option (List String)
text_items [] = some []
text_items (foreign (plain (text t)) ∷ items) = and_text t (text_items items)
text_items (foreign (plain (atom a)) ∷ items) = none
text_items (foreign (plain (array vs)) ∷ items) = none
text_items (foreign (plain (object kvs)) ∷ items) = none
text_items (foreign (note_object n) ∷ items) = none
text_items (foreign (risk_object r) ∷ items) = none
text_items (outcome n ∷ items) = none

-- `list(text)`: its characters
abbrev pub characters : String → List String
characters String.[] = []
characters (String.◌∷◌ c s) = (c ∷ₛ "") ∷ characters s

-- `list(summary.get("open_questions", []))`, of which the model requires texts
unfoldable pub questions_of : Option (MemoryValue Raw) → Option (List String)
unfolding text_items
questions_of none = some []
questions_of (some (sequence items)) = text_items items
questions_of (some (other (plain (array vs)))) = text_items (raw_items vs)
questions_of (some (other (plain (text t)))) = some (characters t)
questions_of (some (other (plain (object kvs)))) = some (keys kvs)
questions_of (some (other (plain (atom a)))) = none
questions_of (some (other (note_object n))) = none
questions_of (some (other (risk_object r))) = none
