-- ===== src/Bridge/Feed/Order.antt =====
-- What a source reads of a feed that grows between its reads.
use autonomous_game_agent.Prelude.{
  ℕ, ◌+◌, String, Bool, true, false, not, Option, none, some, List, [], ◌∷◌, ◌++◌, ◌≡◌, ◌≢◌, refl,
  sym, ap, ◌∙◌, map, ◌&&◌, ◌==◌, ltb, length, length-append, arith, All, All-append, if◌then◌else◌,
  append_assoc, append-nil, map-append, if_holds,
}
use autonomous_game_agent.Planner.Json.{Json}
use autonomous_game_agent.Bridge.Feed.{
  Bytes, PayloadSource, new_source, Reading, payload, exhausted, invalid, inconsistent,
  Inconsistency, drop, read_line, ends_with_newline, read_record, advance, next_payload,
  InvalidRecord, is_object,
}
use autonomous_game_agent.Bridge.Feed.Lines.{
  IsLine, drop-append, read_line-IsLine, concat, concat-snoc,
}

-- A feed, its reader, and the payloads that were returned so far.
pub record Reader : Type 0 where
  pub file : Option Bytes
  pub source : PayloadSource
  pub returned : List Json

pub data Op : Type 0 where
  append : Bytes → Op
  read : Op

-- the bytes of a file; a missing file has none
abbrev pub bytes_of : Option Bytes → Bytes
bytes_of none = []
bytes_of (some bytes) = bytes

abbrev pub payload_of : Reading → List Json
payload_of (payload j) = j ∷ []
payload_of exhausted = []
payload_of (invalid x) = []
payload_of (inconsistent x) = []

abbrev pub new_reader : Reader
new_reader = record { file = none; source = new_source; returned = [] }

module _ (decode : Bytes → Option String) (loads : String → Option Json) where
  unfoldable pub step : Op → Reader → Reader
  step (append bytes) r = record r { file = some (bytes_of r.file ++ bytes) }
  step read r =
      let (answer, s) = next_payload decode loads r.file r.source in
      record r { source = s; returned = r.returned ++ payload_of answer }

  unfoldable pub run : List Op → Reader → Reader
  unfolding step
  run [] r = r
  run (op ∷ ops) r = run ops (step op r)

  -- The returned payloads are those of the first complete lines of the file, each once and in order, and the
  -- source stands behind these lines.
  pub record IsInOrder (r : Reader) : Type 0 where
    pub lines : List Bytes
    pub rest : Bytes
    pub complete : All IsLine lines
    pub prefix : bytes_of r.file ≡ concat lines ++ rest
    pub behind : r.source.offset ≡ length (concat lines)
    pub payloads :
        map (λ line. read_record decode loads line) lines ≡ map (λ j. payload j) r.returned
    pub there : r.source.has_consumed_payload ≡ true → r.file ≢ none

  append-IsInOrder : (bytes : Bytes) (r : Reader) → IsInOrder r → IsInOrder (step (append bytes) r)
  unfolding step
  append-IsInOrder bytes r h = record {
    lines = h.lines;
    rest = h.rest ++ bytes;
    complete = h.complete;
    prefix = ap (λ x. x ++ bytes) h.prefix ∙ append_assoc (concat h.lines) h.rest bytes;
    behind = h.behind;
    payloads = h.payloads;
    there = λ k e. absurd (cc);
  }

  -- the reader after a read
  abbrev after_read : Reader → Reading × PayloadSource → Reader
  after_read r (answer, s) = record r { source = s; returned = r.returned ++ payload_of answer }

  kept-IsInOrder : (r : Reader) → IsInOrder r → IsInOrder (record r { returned = r.returned ++ [] })
  kept-IsInOrder r h = record {
    lines = h.lines;
    rest = h.rest;
    complete = h.complete;
    prefix = h.prefix;
    behind = h.behind;
    payloads = h.payloads ∙ ap (map (λ j. payload j)) (sym (append-nil r.returned));
    there = h.there;
  }

  missing-IsInOrder :
      (r : Reader)
      → IsInOrder r
      → IsInOrder (after_read r (next_payload decode loads none r.source))
  unfolding next_payload
  missing-IsInOrder r h =
      if_holds (λ x. IsInOrder (after_read r x)) r.source.has_consumed_payload
        (λ _. kept-IsInOrder r h) (λ _. kept-IsInOrder r h)

  -- a read of a complete line
  line-IsInOrder :
      (r : Reader) (bytes line more : Bytes) (answer : Reading)
      → r.file ≡ some bytes
      → (h : IsInOrder r) → IsLine line
      → h.rest ≡ line ++ more
      → read_record decode loads line ≡ answer
      → IsInOrder (record r {
        source = (advance decode loads answer (r.source.offset + length line) r.source).1;
        returned =
            r.returned
            ++ payload_of (advance decode loads answer (r.source.offset + length line) r.source).0;
      })
  line-IsInOrder r bytes line more (payload j) there h is_line same e = record {
    lines = h.lines ++ line ∷ [];
    rest = more;
    complete = All-append IsLine h.lines (line ∷ []) h.complete (is_line, tt);
    prefix =
        h.prefix
        ∙ (ap (λ x. concat h.lines ++ x) same
            ∙ (sym (append_assoc (concat h.lines) line more)
                ∙ ap (λ x. x ++ more) (sym (concat-snoc h.lines line))));
    behind =
        (let k : length (concat (h.lines ++ line ∷ [])) ≡ length (concat h.lines) + length line =
            ap length (concat-snoc h.lines line) ∙ length-append (concat h.lines) line in
          omega (arith, h.behind, k));
    payloads = simp (map-append, h.payloads, e);
    there = λ k n. (let m : none ≡ some bytes = sym n ∙ there in cc);
  }
  line-IsInOrder r bytes line more exhausted there h is_line same e = kept-IsInOrder r h
  line-IsInOrder r bytes line more (invalid x) there h is_line same e = kept-IsInOrder r h
  line-IsInOrder r bytes line more (inconsistent x) there h is_line same e = kept-IsInOrder r h

  -- a read of a file that is there, from its offset on
  there-IsInOrder :
      (r : Reader) (bytes : Bytes)
      → r.file ≡ some bytes
      → IsInOrder r
      → IsInOrder (after_read r (next_payload decode loads (some bytes) r.source))
  unfolding next_payload
  there-IsInOrder r bytes there h =
      if_holds (λ x. IsInOrder (after_read r x))
        (not (r.source.offset == 0) && ltb (length bytes) r.source.offset) (λ _. kept-IsInOrder r h)
        (λ _.
          if_holds (λ x. IsInOrder (after_read r x))
            (not (ends_with_newline (read_line (drop r.source.offset bytes))))
            (λ _. kept-IsInOrder r h)
            (λ ends.
              let left : drop r.source.offset bytes ≡ h.rest =
                ap (λ n. drop n bytes) h.behind
                ∙ (ap (drop (length (concat h.lines))) (ap bytes_of (sym there) ∙ h.prefix)
                    ∙ drop-append (concat h.lines) h.rest) in
              let found = read_line-IsLine (drop r.source.offset bytes) (ground arith) in
              line-IsInOrder r bytes (read_line (drop r.source.offset bytes)) found.1.0
                (read_record decode loads (read_line (drop r.source.offset bytes))) there h found.0
                (sym left ∙ found.1.1) refl))

  read-IsInOrder : (r : Reader) → IsInOrder r → IsInOrder (step read r)
  unfolding step
  read-IsInOrder r h = at r.file refl
    where
      at :
          (file : Option Bytes)
          → r.file ≡ file
          → IsInOrder (after_read r (next_payload decode loads file r.source))
      at (some bytes) e = there-IsInOrder r bytes e h
      at none e = missing-IsInOrder r h

  step-IsInOrder : (op : Op) (r : Reader) → IsInOrder r → IsInOrder (step op r)
  step-IsInOrder (append bytes) r h = append-IsInOrder bytes r h
  step-IsInOrder read r h = read-IsInOrder r h

  from-IsInOrder : (ops : List Op) (r : Reader) → IsInOrder r → IsInOrder (run ops r)
  unfolding run
  from-IsInOrder [] r h = h
  from-IsInOrder (op ∷ ops) r h = from-IsInOrder ops (step op r) (step-IsInOrder op r h)

  record-ne-inconsistent :
      (line : Bytes) (x : Inconsistency) → read_record decode loads line ≢ inconsistent x
  unfolding read_record
  record-ne-inconsistent line x = at (decode line)
    where
      object :
          (j : Json) (b : Bool)
          → (if b then payload j else invalid InvalidRecord.no_object) ≢ inconsistent x
      object j true e = cc
      object j false e = cc

      loaded :
          (o : Option Json)
          → (elim o as (λ _. Reading) [
            | none ↦ invalid InvalidRecord.not_json
            | some j ↦ if is_object j then payload j else invalid InvalidRecord.no_object
          ])
            ≢ inconsistent x
      loaded none e = cc
      loaded (some j) e = object j (is_object j) e

      at :
          (o : Option String)
          → (elim o as (λ _. Reading) [
            | none ↦ invalid InvalidRecord.not_utf8
            | some t ↦ elim (loads t) as (λ _. Reading) [
              | none ↦ invalid InvalidRecord.not_json
              | some j ↦ if is_object j then payload j else invalid InvalidRecord.no_object
            ]
          ])
            ≢ inconsistent x
      at none e = cc
      at (some t) e = loaded (loads t) e

  advance-ne-inconsistent :
      (answer : Reading) (n : ℕ) (s : PayloadSource) (x : Inconsistency)
      → answer ≢ inconsistent x
      → (advance decode loads answer n s).0 ≢ inconsistent x
  advance-ne-inconsistent (payload j) n s x h e = cc
  advance-ne-inconsistent exhausted n s x h e = cc
  advance-ne-inconsistent (invalid y) n s x h e = cc
  advance-ne-inconsistent (inconsistent y) n s x h e = h e

  never_inconsistent :
      (r : Reader)
      → IsInOrder r
      → (x : Inconsistency) → (next_payload decode loads r.file r.source).0 ≢ inconsistent x
  unfolding next_payload
  never_inconsistent r h x = at r.file refl
    where
      at :
          (file : Option Bytes)
          → r.file ≡ file
          → (next_payload decode loads file r.source).0 ≢ inconsistent x
      at none e =
          if_holds (λ (y : Reading × PayloadSource). y.0 ≢ inconsistent x)
            r.source.has_consumed_payload (λ k. absurd (h.there k e)) (λ k u. cc)
      at (some bytes) e =
          if_holds (λ (y : Reading × PayloadSource). y.0 ≢ inconsistent x)
            (not (r.source.offset == 0) && ltb (length bytes) r.source.offset)
            (λ k.
              let n : length bytes ≡ length (concat h.lines) + length h.rest =
                ap length (ap bytes_of (sym e) ∙ h.prefix)
                ∙ length-append (concat h.lines) h.rest in
              let b : r.source.offset ≡ length (concat h.lines) = h.behind in absurd (ground arith))
            (λ k.
              if_holds (λ (y : Reading × PayloadSource). y.0 ≢ inconsistent x)
                (not (ends_with_newline (read_line (drop r.source.offset bytes)))) (λ _ u. cc)
                (λ _.
                  advance-ne-inconsistent _ _ _ x
                    (record-ne-inconsistent (read_line (drop r.source.offset bytes)) x)))

  -- However appends to a feed and reads of it alternate, from a missing file and a new source on: the payloads that
  -- were returned are those of the first complete lines of the file, each once and in order, and the source stands
  -- directly behind these lines; an incomplete or invalid line is never read past. The next read reports no
  -- inconsistency.
  pub reads-IsInOrder :
      (ops : List Op)
      → IsInOrder (run ops new_reader)
        × ((x : Inconsistency)
            → (next_payload decode loads (run ops new_reader).file (run ops new_reader).source).0
              ≢ inconsistent x)
  unfolding concat
  reads-IsInOrder ops = (all ops, never_inconsistent (run ops new_reader) (all ops))
    where
      all : (ops : List Op) → IsInOrder (run ops new_reader)
      all ops = from-IsInOrder ops new_reader (record {
        lines = [];
        rest = [];
        complete = tt;
        prefix = refl;
        behind = refl;
        payloads = refl;
        there = λ k e. cc;
      })
