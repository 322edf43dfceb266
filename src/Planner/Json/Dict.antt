-- ===== src/Planner/Json/Dict.antt =====
-- What src/fh_agent/planner/context.py and src/fh_agent/bridge/snapshot_response.py use of Python's dictionaries.
use autonomous_game_agent.Prelude.{
  String, Option, none, some, List, [], ◌∷◌, is_none, if◌then◌else◌, str_eq,
}
use autonomous_game_agent.Planner.Json.{Json, Entries, no_entries, entry}

-- `mapping.get(key)`
unfoldable pub get : String → Entries → Option Json
get key no_entries = none
get key (entry k v kvs) = if str_eq k key then some v else get key kvs

-- `mapping[key] = value` for a key that is not there
unfoldable pub put_last : String → Json → Entries → Entries
put_last key value no_entries = entry key value no_entries
put_last key value (entry k v kvs) = entry k v (put_last key value kvs)

-- `mapping.pop(key, None)`
unfoldable pub pop : String → Entries → Entries
pop key no_entries = no_entries
pop key (entry k v kvs) = let rest = pop key kvs in if str_eq k key then rest else entry k v rest

-- `mapping.setdefault(key, value)`
unfoldable pub set_default : String → Json → Entries → Entries
unfolding get put_last
set_default key value kvs = if is_none (get key kvs) then put_last key value kvs else kvs

-- `list(mapping)`
abbrev pub keys : Entries → List String
keys no_entries = []
keys (entry k v kvs) = k ∷ keys kvs
