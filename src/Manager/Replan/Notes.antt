-- ===== src/Manager/Replan/Notes.antt =====
-- What the summary holds after a verified outcome.
use autonomous_game_agent.Prelude.{
  String, true, false, Option, none, some, List, [], ◌∷◌, ◌++◌, ◌≡◌, refl, arith, if_holds,
  is_empty, str_eq, eq_iff, eq_refl,
}
use autonomous_game_agent.Verifier.Schemas.{VerifierStatus, FailureKind, VerifierResult}
use autonomous_game_agent.Verifier.Contract.{is_terminal}
use autonomous_game_agent.Manager.Events.{TaskCompletionEvent}
use autonomous_game_agent.Manager.Replan.{
  OutcomeNote, Item, outcome, MemoryValue, sequence, Memory, lookup, assign, existing_outcomes,
  outcomes_key, note_text, note_of, append_note, build_replan_memory_summary,
}

module _ {V : Type 0} where
  lookup-assign :
      (key : String) (v : MemoryValue V) (m : Memory V) → lookup key (assign key v m) ≡ some v
  unfolding lookup assign
  lookup-assign key v [] = rw (eq_refl key) refl
  lookup-assign key v ((k, x) ∷ rest) =
      ground (arith, lookup-assign key v rest, eq_refl key, eq_iff k key)

  lookup-assign-other :
      (key k' : String) (v : MemoryValue V) (m : Memory V)
      → str_eq key k' ≡ false
      → lookup k' (assign key v m) ≡ lookup k' m
  unfolding lookup assign
  lookup-assign-other key k' v [] h = rw h refl
  lookup-assign-other key k' v ((k, x) ∷ rest) h =
      ground (arith, lookup-assign-other key k' v rest, eq_iff k key, eq_iff key k', eq_iff k k')

-- A note is of a terminal verdict with evidence, and cites it.
abbrev NoteOf : VerifierResult → Option OutcomeNote → Type 0
NoteOf r none = Unit
NoteOf r (some n) =
    (is_terminal r.status ≡ true)
    × (is_empty r.evidence_ids ≡ false)
    × (n.evidence_ids ≡ r.evidence_ids)
    × (n.status ≡ "observed_fact")

note_of-NoteOf : (skill : String) (r : VerifierResult) → NoteOf r (note_of skill r)
unfolding note_of note_text
note_of-NoteOf skill r =
    if_holds (NoteOf r) (is_empty r.evidence_ids) (λ h. tt) (λ h. at r.status r.failure_kind refl h)
  where
    at :
        (s : VerifierStatus) (k : Option FailureKind)
        → r.status ≡ s
        → is_empty r.evidence_ids ≡ false
        → NoteOf r (elim (note_text skill s k) as (λ _. Option OutcomeNote) [
          | none ↦ none
          | some text ↦
              some (record { status = "observed_fact"; note = text; evidence_ids = r.evidence_ids })
        ])
    at VerifierStatus.success k e h = (rw e refl, h, refl, refl)
    at VerifierStatus.failure (some k) e h = (rw e refl, h, refl, refl)
    at VerifierStatus.failure none e h = tt
    at VerifierStatus.progress k e h = tt
    at VerifierStatus.abstain k e h = tt

-- `after` is `before` with one more outcome note, of the verdict of the event.
pub record IsNoted {V : Type 0} (before after : Memory V) (e : TaskCompletionEvent) : Type 0 where
  pub verdict : VerifierResult
  pub carried : e.verifier_result ≡ some verdict
  pub terminal : is_terminal verdict.status ≡ true
  pub evidenced : is_empty verdict.evidence_ids ≡ false
  pub old : List (Item V)
  pub had : existing_outcomes (lookup outcomes_key before) ≡ some old
  pub note : OutcomeNote
  pub noted : lookup outcomes_key after ≡ some (sequence (old ++ outcome note ∷ []))
  pub cites : note.evidence_ids ≡ verdict.evidence_ids
  pub observed : note.status ≡ "observed_fact"
  pub others : (k : String) → str_eq outcomes_key k ≡ false → lookup k after ≡ lookup k before

abbrev pub Noted : {V : Type 0} → Memory V → TaskCompletionEvent → Option (Memory V) → Type 0
Noted before e none = Unit
Noted before e (some after) = IsNoted before after e

append_note-Noted :
    {V : Type 0} (n : OutcomeNote) (before : Memory V) (e : TaskCompletionEvent)
    (r : VerifierResult)
    → e.verifier_result ≡ some r
    → NoteOf r (some n)
    → Noted before e (append_note n before)
unfolding append_note
append_note-Noted {V} n before e r h w = at (existing_outcomes (lookup outcomes_key before)) refl
  where
    at :
        (o : Option (List (Item V)))
        → existing_outcomes (lookup outcomes_key before) ≡ o
        → Noted before e (elim o as (λ _. Option (Memory V)) [
          | none ↦ none
          | some xs ↦ some (assign outcomes_key (sequence (xs ++ outcome n ∷ [])) before)
        ])
    at none k = tt
    at (some xs) k = record {
      verdict = r;
      carried = h;
      terminal = w.0;
      evidenced = w.1;
      old = xs;
      had = k;
      note = n;
      noted = lookup-assign outcomes_key (sequence (xs ++ outcome n ∷ [])) before;
      cites = w.2;
      observed = w.3;
      others = λ i q. lookup-assign-other outcomes_key i (sequence (xs ++ outcome n ∷ [])) before q;
    }

-- If a summary is built, it is the old one with one more note at the end of the outcomes, which cites the
-- evidence of the event's verdict; that verdict is terminal and has evidence, and no other entry changed.
pub replan_note_is_appended :
    {V : Type 0} (before : Memory V) (e : TaskCompletionEvent)
    → Noted before e (build_replan_memory_summary before e)
unfolding build_replan_memory_summary
replan_note_is_appended {V} before e = at e.verifier_result refl
  where
    noted :
        (r : VerifierResult) (n : Option OutcomeNote)
        → e.verifier_result ≡ some r
        → NoteOf r n
        → Noted before e
            (elim n as (λ _. Option (Memory V)) [ none ↦ none | some n' ↦ append_note n' before ])
    noted r none h w = tt
    noted r (some n) h w = append_note-Noted n before e r h w

    at :
        (v : Option VerifierResult)
        → e.verifier_result ≡ v
        → Noted before e (elim v as (λ _. Option (Memory V)) [
          | none ↦ none
          | some r ↦ elim (note_of e.selected_skill r) as (λ _. Option (Memory V)) [
            | none ↦ none
            | some n ↦ append_note n before
          ]
        ])
    at none h = tt
    at (some r) h = noted r (note_of e.selected_skill r) h (note_of-NoteOf e.selected_skill r)
