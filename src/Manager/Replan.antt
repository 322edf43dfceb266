-- ===== src/Manager/Replan.antt =====
-- src/fh_agent/manager/replan_context.py and replan_loop.py: attempts in a row, each planned on notes of
-- the verified outcomes before it. The step runner is a parameter, as it is of the loop's constructor; a
-- memory summary is a list of entries, whose values and items of another kind are of a type `V`.
pub mod Notes
pub mod Rounds
mod Tests
use Prim.Native.String.{◌++◌ as str_append}
use autonomous_game_agent.Prelude.{
  ℕ, String, Bool, true, false, not, Option, none, some, List, [], ◌∷◌, ◌++◌, if◌then◌else◌,
  is_empty, str_eq,
}
use autonomous_game_agent.Game.Call.{Call, returns, raises}
use autonomous_game_agent.Verifier.Schemas.{
  VerifierStatus, FailureKind, VerifierResult, failure_kind_value,
}
use autonomous_game_agent.Manager.Task.{ManagerStopResult}
use autonomous_game_agent.Manager.Events.{TaskCompletionEvent}

-- The note of one outcome; its status is `observed_fact`.
pub record OutcomeNote : Type 0 where
  pub status : String
  pub note : String
  pub evidence_ids : List String

pub data Item (V : Type 0) : Type 0 where
  outcome : OutcomeNote → Item V
  foreign : V → Item V

-- A value of the summary: a sequence that is no text, or another value.
pub data MemoryValue (V : Type 0) : Type 0 where
  sequence : List (Item V) → MemoryValue V
  other : V → MemoryValue V

abbrev pub Memory : Type 0 → Type 0
Memory V = List (String × MemoryValue V)

abbrev pub outcomes_key : String
outcomes_key = "recent_skill_outcomes"

module _ {V : Type 0} where
  -- `summary.get(key)`
  unfoldable pub lookup : String → Memory V → Option (MemoryValue V)
  lookup key [] = none
  lookup key ((k, v) ∷ rest) = if str_eq k key then some v else lookup key rest

  -- `summary[key] = value`
  unfoldable pub assign : String → MemoryValue V → Memory V → Memory V
  assign key value [] = (key, value) ∷ []
  assign key value ((k, v) ∷ rest) =
      let others = assign key value rest in
      if str_eq k key then (k, value) ∷ rest else (k, v) ∷ others

  -- `.get("recent_skill_outcomes", [])`; `none` where it is no sequence
  abbrev pub existing_outcomes : Option (MemoryValue V) → Option (List (Item V))
  existing_outcomes none = some []
  existing_outcomes (some (MemoryValue.other v)) = none
  existing_outcomes (some (MemoryValue.sequence xs)) = some xs

-- the text of the note; `none` where a failure has no kind, and for a verdict that is not terminal
unfoldable pub note_text : String → VerifierStatus → Option FailureKind → Option String
note_text skill VerifierStatus.success kind =
    some (str_append "Skill " (str_append skill " completed with verifier status success."))
note_text skill VerifierStatus.failure (some k) = some (
    str_append "Skill " (
      str_append skill
        (str_append " completed with verifier failure " (str_append (failure_kind_value k) "."))))
note_text skill VerifierStatus.failure none = none
note_text skill VerifierStatus.progress kind = none
note_text skill VerifierStatus.abstain kind = none

-- the note of a verdict; `none` where one of its checks raises
unfoldable pub note_of : String → VerifierResult → Option OutcomeNote
unfolding note_text
note_of skill r =
    if is_empty r.evidence_ids then none else elim (note_text skill r.status r.failure_kind) [
      | none ↦ none
      | some text ↦
          some (record { status = "observed_fact"; note = text; evidence_ids = r.evidence_ids })
    ]

module _ {V : Type 0} where
  -- the rest of `build_replan_memory_summary`, for a note
  unfoldable pub append_note : OutcomeNote → Memory V → Option (Memory V)
  unfolding lookup assign
  append_note n base = elim (existing_outcomes (lookup outcomes_key base)) [
    | none ↦ none
    | some xs ↦ some (assign outcomes_key (MemoryValue.sequence (xs ++ Item.outcome n ∷ [])) base)
  ]

  -- `none` where it raises
  unfoldable pub build_replan_memory_summary : Memory V → TaskCompletionEvent → Option (Memory V)
  unfolding note_of append_note
  build_replan_memory_summary base e = elim e.verifier_result [
    | none ↦ none
    | some r ↦ elim (note_of e.selected_skill r) [ none ↦ none | some n ↦ append_note n base ]
  ]

pub data ReplanLoopStopReason : Type 0 where
  budget_exhausted manager_stop nonterminal : ReplanLoopStopReason

pub record ReplanLoopStepIds : Type 0 where
  pub task_id : String
  pub completion_event_id : String
  pub planner_output_id : Option String
  pub planner_trace_id : Option String

-- `R` is the type of the records of one step.
pub record ReplanLoopResult (V R : Type 0) : Type 0 where
  pub step_results : List R
  pub final_memory_summary : Memory V
  pub stop_reason : ReplanLoopStopReason

-- How the loop goes on after a step.
pub data Next (V : Type 0) : Type 0 where
  stops : ReplanLoopStopReason → Next V
  fails : Next V
  goes_on : Memory V → Next V

module _ {V : Type 0} where
  -- what follows on the event of a step
  unfoldable pub after_event : Memory V → TaskCompletionEvent → Next V
  unfolding build_replan_memory_summary
  after_event memory e = elim e.manager_stop_result [
    | some stop ↦ stops ReplanLoopStopReason.manager_stop
    | none ↦ elim (build_replan_memory_summary memory e) [ none ↦ fails | some m ↦ goes_on m ]
  ]

  unfoldable pub after_step : Memory V → Option TaskCompletionEvent → Next V
  unfolding after_event
  after_step memory none = stops ReplanLoopStopReason.nonterminal
  after_step memory (some e) = after_event memory e

module _ {V R W : Type 0} (run_once : Memory V → ReplanLoopStepIds → W → Call R × W)
    (completion_event : R → Option TaskCompletionEvent) where
  -- the `for` loop, with the results so far; a list of step IDs is left
  unfoldable pub rounds :
      List ReplanLoopStepIds → List R → Memory V → W → Call (ReplanLoopResult V R) × W
  unfolding after_step
  rounds [] results memory w = (
    returns (record {
      step_results = results;
      final_memory_summary = memory;
      stop_reason = ReplanLoopStopReason.budget_exhausted;
    }),
    w,
  )
  rounds (ids ∷ rest) results memory w =
      let (answer, w') = run_once memory ids w in
      elim answer [
        | raises ↦ (raises, w')
        | returns r ↦ elim (after_step memory (completion_event r)) [
          | fails ↦ (raises, w')
          | stops reason ↦ (
            returns (record {
              step_results = results ++ r ∷ [];
              final_memory_summary = memory;
              stop_reason = reason;
            }),
            w',
          )
          | goes_on m ↦ rounds rest (results ++ r ∷ []) m w'
        ]
      ]

  unfoldable pub run_bounded :
      Memory V → List ReplanLoopStepIds → W → Call (ReplanLoopResult V R) × W
  unfolding rounds
  run_bounded memory [] w = (raises, w)
  run_bounded memory (ids ∷ rest) w = rounds (ids ∷ rest) [] memory w
