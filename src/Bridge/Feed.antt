-- ===== src/Bridge/Feed.antt =====
-- src/fh_agent/bridge/jsonl_payload_source.py: one complete record at a time from an append-only file. A file is
-- missing or has bytes. Decoding UTF-8 and reading JSON are parameters, of which nothing is assumed.
pub mod Lines
pub mod Order
pub mod Drain
mod Tests
use autonomous_game_agent.Prelude.{
  ℕ, zero, suc, ◌+◌, String, Bool, true, false, not, Option, none, some, List, [], ◌∷◌, ◌&&◌,
  length, if◌then◌else◌, ltb, ◌==◌,
}
use autonomous_game_agent.Planner.Json.{Json, text, atom, array, object}

abbrev pub Bytes : Type 0
Bytes = List ℕ

-- `b"\n"`
abbrev pub newline : ℕ
newline = 10

-- `_offset` and `_has_consumed_payload`
pub record PayloadSource : Type 0 where
  pub offset : ℕ
  pub has_consumed_payload : Bool

-- `__init__`
abbrev pub new_source : PayloadSource
new_source = record { offset = 0; has_consumed_payload = false }

pub data InvalidRecord : Type 0 where
  not_utf8 not_json no_object : InvalidRecord

pub data Inconsistency : Type 0 where
  disappeared truncated : Inconsistency

-- how `next_payload` ends
pub data Reading : Type 0 where
  payload : Json → Reading
  exhausted : Reading
  invalid : InvalidRecord → Reading
  inconsistent : Inconsistency → Reading

-- the bytes after a `seek`
unfoldable pub drop : ℕ → Bytes → Bytes
drop zero bytes = bytes
drop (suc n) [] = []
drop (suc n) (b ∷ bytes) = drop n bytes

-- `readline`: up to the first newline, which it keeps, or to the end
unfoldable pub read_line : Bytes → Bytes
read_line [] = []
read_line (b ∷ bytes) = if b == newline then b ∷ [] else b ∷ read_line bytes

-- `endswith(b"\n")`
unfoldable pub ends_with_newline : Bytes → Bool
ends_with_newline [] = false
ends_with_newline (b ∷ []) = b == newline
ends_with_newline (b ∷ c ∷ bytes) = ends_with_newline (c ∷ bytes)

-- `isinstance(payload, dict)`
unfoldable pub is_object : Json → Bool
is_object (text t) = false
is_object (atom a) = false
is_object (array vs) = false
is_object (object kvs) = true

module _ (decode : Bytes → Option String) (loads : String → Option Json) where
  -- the record of a complete line
  unfoldable pub read_record : Bytes → Reading
  unfolding is_object
  read_record line = elim (decode line) [
    | none ↦ invalid not_utf8
    | some t ↦ elim (loads t) [
      | none ↦ invalid not_json
      | some j ↦ if is_object j then payload j else invalid no_object
    ]
  ]

  -- the end of `next_payload`: only a payload moves the source
  abbrev pub advance : Reading → ℕ → PayloadSource → Reading × PayloadSource
  advance (payload j) next_offset s =
      (payload j, record { offset = next_offset; has_consumed_payload = true })
  advance exhausted next_offset s = (exhausted, s)
  advance (invalid x) next_offset s = (invalid x, s)
  advance (inconsistent x) next_offset s = (inconsistent x, s)

  unfoldable pub next_payload : Option Bytes → PayloadSource → Reading × PayloadSource
  unfolding drop read_line ends_with_newline read_record
  next_payload none s =
      if s.has_consumed_payload then (inconsistent disappeared, s) else (exhausted, s)
  next_payload (some bytes) s =
      if not (s.offset == 0) && ltb (length bytes) s.offset
      then (inconsistent truncated, s)
      else let raw_line = read_line (drop s.offset bytes) in
        if not (ends_with_newline raw_line)
        then (exhausted, s)
        else advance (read_record raw_line) (s.offset + length raw_line) s
