-- ===== src/Bridge/Feed/Tests.antt =====
-- Reads of a small feed, of which every line decodes to an empty object.
use autonomous_game_agent.Prelude.{
  ◌∷◌, ◌++◌, ◌+◌, String, Option, some, List, [], ◌≡◌, ◌≢◌, refl, length,
}
use autonomous_game_agent.Planner.Json.{Json, object, no_entries}
use autonomous_game_agent.Bridge.Feed.{
  Bytes, Inconsistency, inconsistent, new_source, next_payload, read_line, ends_with_newline,
  read_record,
}
use autonomous_game_agent.Bridge.Feed.Lines.{concat}
use autonomous_game_agent.Bridge.Feed.Order.{
  Op, append, read, run, new_reader, IsInOrder, reads-IsInOrder,
}
use autonomous_game_agent.Bridge.Feed.Drain.{reads, every_record_is_read}

abbrev as_text : Bytes → Option String
as_text bytes = some "{}"

abbrev empty_object : String → Option Json
empty_object t = some (object no_entries)

abbrev ops : List Op
ops = read ∷ append (1 ∷ []) ∷ read ∷ append (10 ∷ 2 ∷ []) ∷ read ∷ read ∷ []

-- The incomplete record is not read before its newline is there.
run-one : (run as_text empty_object ops new_reader).returned ≡ object no_entries ∷ []
unfolding run next_payload
run-one = refl

reads-IsInOrder_example :
    IsInOrder as_text empty_object (run as_text empty_object ops new_reader)
    × ((x : Inconsistency)
        → (next_payload as_text empty_object
            (run as_text empty_object ops new_reader).file
            (run as_text empty_object ops new_reader).source).0
          ≢ inconsistent x)
reads-IsInOrder_example = reads-IsInOrder as_text empty_object ops

abbrev lines : List Bytes
lines = (1 ∷ 10 ∷ []) ∷ (10 ∷ []) ∷ []

every_record_is_read_example :
    (run as_text empty_object (reads (length lines + 3)) (record {
      file = some (concat lines ++ 5 ∷ []);
      source = new_source;
      returned = [];
    })).returned
    ≡ object no_entries ∷ object no_entries ∷ []
unfolding read_line ends_with_newline read_record
every_record_is_read_example =
    every_record_is_read as_text empty_object lines (object no_entries ∷ object no_entries ∷ [])
      (5 ∷ []) 3 ((refl, refl), (refl, tt)) refl refl
