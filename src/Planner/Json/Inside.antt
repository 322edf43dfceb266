-- ===== src/Planner/Json/Inside.antt =====
-- Which values stand in a value that src/fh_agent/planner/planner_output.py scans.
use autonomous_game_agent.Prelude.{String}
use autonomous_game_agent.Planner.Json.{Json, array, object, Items, item, Entries, entry}

-- `Inside v j`: the value `v` is `j` itself, or stands somewhere in it.
mutual
  pub data Inside (v : Json) : Json → Type 0 where
    whole : Inside v v
    in_array : {vs : Items} → InItems v vs → Inside v (array vs)
    in_object : {kvs : Entries} → InEntries v kvs → Inside v (object kvs)

  pub data InItems (v : Json) : Items → Type 0 where
    at_item : {w : Json} {vs : Items} → Inside v w → InItems v (item w vs)
    past_item : {w : Json} {vs : Items} → InItems v vs → InItems v (item w vs)

  pub data InEntries (v : Json) : Entries → Type 0 where
    at_entry : {k : String} {w : Json} {kvs : Entries} → Inside v w → InEntries v (entry k w kvs)
    past_entry :
        {k : String} {w : Json} {kvs : Entries} → InEntries v kvs → InEntries v (entry k w kvs)
