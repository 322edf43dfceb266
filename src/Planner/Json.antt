-- ===== src/Planner/Json.antt =====
-- The values that src/fh_agent/planner/planner_output.py scans: what Python's json gives.
pub mod Inside
pub mod Dict
use autonomous_game_agent.Prelude.{String, Bool}

-- a number, a Boolean, null, or an object of a model class, which the scans do not look into
pub data Atom : Type 0 where
  number null model : Atom
  truth : Bool → Atom

mutual
  pub data Json : Type 0 where
    text : String → Json
    atom : Atom → Json
    array : Items → Json
    object : Entries → Json

  pub data Items : Type 0 where
    no_items : Items
    item : Json → Items → Items

  pub data Entries : Type 0 where
    no_entries : Entries
    entry : String → Json → Entries → Entries
