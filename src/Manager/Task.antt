-- ===== src/Manager/Task.antt =====
-- The records of src/fh_agent/manager/task_spec.py and runtime_stop.py. The scans for unsafe content are
-- in `Planner`.
use autonomous_game_agent.Prelude.{
  ℕ, String, Bool, true, false, not, Option, none, some, List, [], ◌∷◌, ◌&&◌, str_eq, ltb,
}
use autonomous_game_agent.Prelude.Int.{ℤ}
use autonomous_game_agent.Manager.Reward.{RewardProfile}
use autonomous_game_agent.Manager.TargetRef.{SkillName, GroundedTarget}
use autonomous_game_agent.Verifier.Schemas.{FailureKind}

-- `JsonScalar`; a float is a number of units of 2^-1074
pub data JsonScalar : Type 0 where
  text : String → JsonScalar
  int : ℤ → JsonScalar
  float : ℤ → JsonScalar
  bool : Bool → JsonScalar
  null : JsonScalar

pub record TaskSpec : Type 0 where
  pub task_id : String
  pub selected_skill : SkillName
  pub goal : String
  pub target : Option GroundedTarget
  pub constraints : List (String × JsonScalar)
  pub success_conditions : List String
  pub failure_conditions : List String
  pub timeout_steps : ℕ
  pub reward_profile : RewardProfile
  pub source_evidence_ids : List String
  pub planner_output_id : Option String
  pub planner_trace_id : Option String

-- `all(conditions)`
unfoldable pub no_empty_text : List String → Bool
no_empty_text [] = true
no_empty_text (c ∷ cs) = not (str_eq c "") && no_empty_text cs

-- The field constraints of the model: true where they hold.
unfoldable pub fields_accepted : TaskSpec → Bool
unfolding no_empty_text
fields_accepted t =
    ltb 0 t.timeout_steps
    && no_empty_text t.success_conditions
    && no_empty_text t.failure_conditions

pub record ManagerStopResult : Type 0 where
  pub failure_kind : FailureKind
  pub reason : String
  pub evidence_ids : List String
  pub trigger_event_id : Option String

-- `value == ""` for an optional ID
abbrev pub is_blank_id : Option String → Bool
is_blank_id none = false
is_blank_id (some i) = str_eq i ""

-- true where the constructor returns, false where it raises
unfoldable pub stop_accepted : ManagerStopResult → Bool
stop_accepted r = not (str_eq r.reason "") && not (is_blank_id r.trigger_event_id)
