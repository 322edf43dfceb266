-- ===== src/Bridge/Feed/Drain.antt =====
-- That reads deliver every complete record of a feed.
use autonomous_game_agent.Prelude.{
  ℕ, zero, suc, ◌+◌, String, true, false, not, Option, some, List, [], ◌∷◌, ◌++◌, ◌≡◌, refl, sym,
  ap, ◌∙◌, map, ◌&&◌, ◌==◌, ltb, length, length-append, arith, All, append_assoc, append-nil,
}
use autonomous_game_agent.Planner.Json.{Json}
use autonomous_game_agent.Bridge.Feed.{
  Bytes, PayloadSource, new_source, Reading, payload, exhausted, drop, read_line, ends_with_newline,
  read_record, next_payload,
}
use autonomous_game_agent.Bridge.Feed.Lines.{
  IsLine, drop-append, read_line-append, IsLine-ends_with_newline, concat,
}
use autonomous_game_agent.Bridge.Feed.Order.{Reader, Op, read, step, run, payload_of}

-- so many reads
unfoldable pub reads : ℕ → List Op
reads zero = []
reads (suc n) = read ∷ reads n

in_file :
    (offset n : ℕ) (xs ys : Bytes)
    → offset ≡ length xs
    → (not (offset == 0) && ltb (length (xs ++ ys)) offset) ≡ false
in_file offset n xs ys e = ground (arith, length-append xs ys)

module _ (decode : Bytes → Option String) (loads : String → Option Json) where
  -- a read at the start of a record
  pub record-is_read :
      (s : PayloadSource) (before line more : Bytes) (j : Json)
      → s.offset ≡ length before
      → IsLine line
      → read_record decode loads line ≡ payload j
      → next_payload decode loads (some (before ++ (line ++ more))) s
        ≡ (payload j, record { offset = s.offset + length line; has_consumed_payload = true })
  unfolding next_payload
  record-is_read s before line more j at_line is_line e =
      let inside = in_file s.offset 0 before (line ++ more) at_line in
      let left : drop s.offset (before ++ (line ++ more)) ≡ line ++ more =
        ap (λ n. drop n (before ++ (line ++ more))) at_line ∙ drop-append before (line ++ more) in
      let found : read_line (drop s.offset (before ++ (line ++ more))) ≡ line =
        ap read_line left ∙ read_line-append line more is_line in
      rw (inside, found, IsLine-ends_with_newline line is_line, e) refl

  -- a read where no complete line is left
  pub nothing-is_read :
      (s : PayloadSource) (before rest : Bytes)
      → s.offset ≡ length before
      → ends_with_newline (read_line rest) ≡ false
      → next_payload decode loads (some (before ++ rest)) s ≡ (exhausted, s)
  unfolding next_payload
  nothing-is_read s before rest behind e =
      let inside = in_file s.offset 0 before rest behind in
      let left : drop s.offset (before ++ rest) ≡ rest =
        ap (λ n. drop n (before ++ rest)) behind ∙ drop-append before rest in
      rw (inside, left, e) refl

  idle_read :
      (r : Reader)
      → next_payload decode loads r.file r.source ≡ (exhausted, r.source)
      → step decode loads read r ≡ r
  unfolding step
  idle_read r e = rw e (ap (λ x. record r { returned = x }) (append-nil r.returned))

  idle_reads :
      (k : ℕ) (r : Reader)
      → next_payload decode loads r.file r.source ≡ (exhausted, r.source)
      → run decode loads (reads k) r ≡ r
  unfolding run reads
  idle_reads zero r e = refl
  idle_reads (suc k) r e = ap (run decode loads (reads k)) (idle_read r e) ∙ idle_reads k r e

  -- the reader after the read of a record
  abbrev past_record : Reader → Bytes → Json → Reader
  past_record r line j = record r {
    source = record { offset = r.source.offset + length line; has_consumed_payload = true };
    returned = r.returned ++ j ∷ [];
  }

  one_read :
      (r : Reader) (before line more : Bytes) (j : Json)
      → r.file ≡ some (before ++ (line ++ more))
      → r.source.offset ≡ length before
      → IsLine line
      → read_record decode loads line ≡ payload j
      → step decode loads read r ≡ past_record r line j
  unfolding step
  one_read r before line more j there at_line is_line e =
      let k : next_payload decode loads r.file r.source ≡ (
        payload j,
        record { offset = r.source.offset + length line; has_consumed_payload = true },
      ) =
        ap (λ x. next_payload decode loads x r.source) there
        ∙ record-is_read r.source before line more j at_line is_line e in
      ap
        (λ (x : Reading × PayloadSource). record r {
          source = x.1;
          returned = r.returned ++ payload_of x.0;
        })
        k

  drained :
      (lines : List Bytes) (js : List Json) (before rest : Bytes) (k : ℕ) (r : Reader)
      → r.file ≡ some (before ++ (concat lines ++ rest))
      → r.source.offset ≡ length before
      → All IsLine lines
      → map (λ line. read_record decode loads line) lines ≡ map (λ j. payload j) js
      → ends_with_newline (read_line rest) ≡ false
      → (run decode loads (reads (length lines + k)) r).returned ≡ r.returned ++ js
  unfolding concat reads run
  drained [] [] before rest k r there behind all e left =
      let idle : next_payload decode loads r.file r.source ≡ (exhausted, r.source) =
        ap (λ x. next_payload decode loads x r.source) there
        ∙ nothing-is_read r.source before rest behind left in
      let n : length {A = Bytes} [] + k ≡ k = omega arith in
      ap (λ (x : ℕ). (run decode loads (reads x) r).returned) n
      ∙ (ap (λ (x : Reader). x.returned) (idle_reads k r idle) ∙ sym (append-nil r.returned))
  drained [] (j ∷ js) before rest k r there behind all e left = absurd (cc)
  drained (line ∷ lines) [] before rest k r there behind all e left = absurd (cc)
  drained (line ∷ lines) (j ∷ js) before rest k r there behind all e left =
      let n : suc (length lines) + k ≡ suc (length lines + k) = omega arith in
      let this : read_record decode loads line ≡ payload j = (cc) in
      let others : map (λ line. read_record decode loads line) lines ≡ map (λ j. payload j) js =
        (cc) in
      let first : step decode loads read r ≡ past_record r line j =
        one_read r before line (concat lines ++ rest) j
          (there ∙ ap (λ x. some (before ++ x)) (append_assoc line (concat lines) rest)) behind
          all.0 this in
      ap (λ (x : ℕ). (run decode loads (reads x) r).returned) n
      ∙ (ap (λ x. (run decode loads (reads (length lines + k)) x).returned) first
          ∙ (drained lines js (before ++ line) rest k (past_record r line j)
                (there
                  ∙ (ap (λ x. some (before ++ x)) (append_assoc line (concat lines) rest)
                      ∙ ap (λ x. some x) (sym (append_assoc before line (concat lines ++ rest)))))
                (omega (arith, behind, length-append before line)) all.1 others left
              ∙ append_assoc r.returned (j ∷ []) js))

  -- Of a file that holds complete records and then at most an incomplete one, a new source returns all of the complete
  -- records' payloads, in order and nothing else, by as many reads as there are records or more.
  pub every_record_is_read :
      (lines : List Bytes) (js : List Json) (rest : Bytes) (k : ℕ)
      → All IsLine lines
      → map (λ line. read_record decode loads line) lines ≡ map (λ j. payload j) js
      → ends_with_newline (read_line rest) ≡ false
      → (run decode loads (reads (length lines + k)) (record {
        file = some (concat lines ++ rest);
        source = new_source;
        returned = [];
      })).returned
        ≡ js
  every_record_is_read lines js rest k all e left =
      drained lines js [] rest k _ refl refl all e left
