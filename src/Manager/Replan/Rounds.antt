-- ===== src/Manager/Replan/Rounds.antt =====
-- What a bounded loop of attempts has done when it returns.
use autonomous_game_agent.Prelude.{
  ℕ, suc, ◌≤◌, Option, none, some, List, [], ◌∷◌, ◌++◌, ◌≡◌, refl, sym, ◌∙◌, ap, arith, length,
  append_assoc, append-nil,
}
use autonomous_game_agent.Game.Call.{Call, returns, raises}
use autonomous_game_agent.Manager.Task.{ManagerStopResult}
use autonomous_game_agent.Manager.Events.{TaskCompletionEvent}
use autonomous_game_agent.Manager.Replan.{
  Memory, build_replan_memory_summary, ReplanLoopStopReason, budget_exhausted, manager_stop,
  nonterminal, ReplanLoopStepIds, ReplanLoopResult, Next, stops, fails, goes_on, after_event,
  after_step, rounds, run_bounded,
}
use autonomous_game_agent.Manager.Replan.Notes.{IsNoted, Noted, replan_note_is_appended}

-- Steps that led from one summary to the next: each ended with an event, no Manager stop and a note.
abbrev pub Noting :
    {V R : Type 0} → (R → Option TaskCompletionEvent) → Memory V → List R → Memory V → Type 0
Noting event before [] after = before ≡ after
Noting {V} event before (r ∷ rs) after =
    (e : TaskCompletionEvent) × (m : Memory V) × (event r ≡ some e)
    × (e.manager_stop_result ≡ none)
    × IsNoted before m e
    × Noting event m rs after

-- The event of a Manager stop.
abbrev pub HasStop : Option TaskCompletionEvent → Type 0
HasStop o =
    (e : TaskCompletionEvent) × (stop : ManagerStopResult) × (o ≡ some e)
    × (e.manager_stop_result ≡ some stop)

-- How the loop stopped after the steps `rs`, from a summary.
abbrev pub Stopped :
    {V R : Type 0}
    → (R → Option TaskCompletionEvent)
    → ReplanLoopStopReason
    → ℕ
    → List R
    → Memory V
    → Memory V
    → Type 0
Stopped event budget_exhausted n rs before after = (length rs ≡ n) × Noting event before rs after
Stopped {R = R} event nonterminal n rs before after =
    (done : List R) × (last : R) × (rs ≡ done ++ last ∷ [])
    × (suc (length done) ≤ n)
    × Noting event before done after
    × (event last ≡ none)
Stopped {R = R} event manager_stop n rs before after =
    (done : List R) × (last : R) × (rs ≡ done ++ last ∷ [])
    × (suc (length done) ≤ n)
    × Noting event before done after
    × HasStop (event last)

Stopped-cons :
    {V R : Type 0} (event : R → Option TaskCompletionEvent) (reason : ReplanLoopStopReason) (n : ℕ)
    (r : R) (rs : List R) (before m after : Memory V) (e : TaskCompletionEvent)
    → event r ≡ some e
    → e.manager_stop_result ≡ none
    → IsNoted before m e
    → Stopped event reason n rs m after
    → Stopped event reason (suc n) (r ∷ rs) before after
Stopped-cons event budget_exhausted n r rs before m after e h k w (counted, s) =
    (ap suc counted, (e, m, h, k, w, s))
Stopped-cons event nonterminal n r rs before m after e h k w (done, last, split, few, s, x) =
    (r ∷ done, last, ap (λ y. r ∷ y) split, omega arith, (e, m, h, k, w, s), x)
Stopped-cons event manager_stop n r rs before m after e h k w (done, last, split, few, s, x) =
    (r ∷ done, last, ap (λ y. r ∷ y) split, omega arith, (e, m, h, k, w, s), x)

-- What the loop knows of a step by the way it goes on.
abbrev After : {V : Type 0} → Memory V → Option TaskCompletionEvent → Next V → Type 0
After memory o fails = Unit
After memory o (stops budget_exhausted) = ⊥
After memory o (stops nonterminal) = o ≡ none
After memory o (stops manager_stop) = HasStop o
After memory o (goes_on m) =
    (e : TaskCompletionEvent) × (o ≡ some e) × (e.manager_stop_result ≡ none) × IsNoted memory m e

after_step-After :
    {V : Type 0} (memory : Memory V) (o : Option TaskCompletionEvent)
    → After memory o (after_step memory o)
unfolding after_step after_event
after_step-After memory none = refl
after_step-After {V} memory (some e) = at e.manager_stop_result refl
  where
    built :
        (m : Option (Memory V))
        → e.manager_stop_result ≡ none
        → Noted memory e m
        → After memory (some e) (elim m as (λ _. Next V) [ none ↦ fails | some m' ↦ goes_on m' ])
    built none h w = tt
    built (some m) h w = (e, refl, h, w)

    at :
        (s : Option ManagerStopResult)
        → e.manager_stop_result ≡ s
        → After memory (some e) (elim s as (λ _. Next V) [
          | some stop ↦ stops manager_stop
          | none ↦ elim (build_replan_memory_summary memory e) as (λ _. Next V) [
            | none ↦ fails
            | some m ↦ goes_on m
          ]
        ])
    at (some stop) h = (e, stop, refl, h)
    at none h = built (build_replan_memory_summary memory e) h (replan_note_is_appended memory e)

module _ {V R W : Type 0} (run_once : Memory V → ReplanLoopStepIds → W → Call R × W)
    (completion_event : R → Option TaskCompletionEvent) where
  -- A returned result continues `results` by steps that ended so.
  abbrev Continued : List R → ℕ → Memory V → Call (ReplanLoopResult V R) → Type 0
  Continued results n memory raises = Unit
  Continued results n memory (returns x) =
      (rs : List R) × (x.step_results ≡ results ++ rs)
      × Stopped completion_event x.stop_reason n rs memory x.final_memory_summary

  rounds-Continued :
      (ids : List ReplanLoopStepIds) (results : List R) (memory : Memory V) (w : W)
      → Continued results
          (length ids)
          memory
          (rounds run_once completion_event ids results memory w).0
  unfolding rounds
  rounds-Continued [] results memory w = ([], sym (append-nil results), (refl, refl))
  rounds-Continued (i ∷ ids) results memory w =
      at (run_once memory i w).0
        (λ r m. rounds-Continued ids (results ++ r ∷ []) m (run_once memory i w).1)
    where
      w' : W
      w' = (run_once memory i w).1

      Ih : Type 0
      Ih =
          (r : R) (m : Memory V)
          → Continued (results ++ r ∷ []) (length ids) m
              (rounds run_once completion_event ids (results ++ r ∷ []) m w').0

      consed :
          (r : R) (m : Memory V) (e : TaskCompletionEvent) (c : Call (ReplanLoopResult V R))
          → completion_event r ≡ some e
          → e.manager_stop_result ≡ none
          → IsNoted memory m e
          → Continued (results ++ r ∷ []) (length ids) m c
          → Continued results (suc (length ids)) memory c
      consed r m e raises h k n s = tt
      consed r m e (returns x) h k n (rs, split, s) = (
        r ∷ rs,
        split ∙ append_assoc results (r ∷ []) rs,
        Stopped-cons completion_event x.stop_reason (length ids) r rs memory m
            x.final_memory_summary e h k n s,
      )

      next :
          (r : R) (t : Next V)
          → After memory (completion_event r) t
          → Ih
          → Continued results
              (suc (length ids))
              memory
              (elim t as (λ _. Call (ReplanLoopResult V R) × W) [
                | fails ↦ (raises, w')
                | stops reason ↦ (
                  returns (record {
                    step_results = results ++ r ∷ [];
                    final_memory_summary = memory;
                    stop_reason = reason;
                  }),
                  w',
                )
                | goes_on m ↦ rounds run_once completion_event ids (results ++ r ∷ []) m w'
              ]).0
      next r fails a ih = tt
      next r (stops budget_exhausted) a ih = absurd a
      next r (stops nonterminal) a ih = (r ∷ [], refl, ([], r, refl, omega arith, refl, a))
      next r (stops manager_stop) a ih = (r ∷ [], refl, ([], r, refl, omega arith, refl, a))
      next r (goes_on m) (e, h, k, n) ih = consed r m e _ h k n (ih r m)

      at :
          (t : Call R)
          → Ih
          → Continued results
              (suc (length ids))
              memory
              (elim t as (λ _. Call (ReplanLoopResult V R) × W) [
                | raises ↦ (raises, w')
                | returns r ↦
                    elim (after_step memory (completion_event r))
                      as (λ _. Call (ReplanLoopResult V R) × W) [
                        | fails ↦ (raises, w')
                        | stops reason ↦ (
                          returns (record {
                            step_results = results ++ r ∷ [];
                            final_memory_summary = memory;
                            stop_reason = reason;
                          }),
                          w',
                        )
                        | goes_on m ↦ rounds run_once completion_event ids (results ++ r ∷ []) m w'
                      ]
              ]).0
      at raises ih = tt
      at (returns r) ih =
          next r (after_step memory (completion_event r))
            (after_step-After memory (completion_event r)) ih

  abbrev pub Answered : ℕ → Memory V → Call (ReplanLoopResult V R) → Type 0
  Answered n memory raises = Unit
  Answered n memory (returns x) =
      Stopped completion_event x.stop_reason n x.step_results memory x.final_memory_summary

  restated :
      (n : ℕ) (memory : Memory V) (c : Call (ReplanLoopResult V R))
      → Continued [] n memory c
      → Answered n memory c
  restated n memory raises s = tt
  restated n memory (returns x) (rs, split, s) = rw split s

  -- A loop that returns has made a step for each of the step IDs if the budget is exhausted, and at most so
  -- many otherwise. Every step but the last one of a loop that stopped early ended with an event, without a
  -- Manager stop, and with a note of its verified outcome, from summary to summary up to the final one; a
  -- loop that stopped early stopped on a step without event, or on one with a Manager stop.
  pub loop_goes_on_from_verified_outcomes :
      (memory : Memory V) (ids : List ReplanLoopStepIds) (w : W)
      → Answered (length ids) memory (run_bounded run_once completion_event memory ids w).0
  unfolding run_bounded
  loop_goes_on_from_verified_outcomes memory [] w = tt
  loop_goes_on_from_verified_outcomes memory (i ∷ ids) w =
      restated (suc (length ids)) memory _ (rounds-Continued (i ∷ ids) [] memory w)
