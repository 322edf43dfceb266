-- ===== src/Planner/Contract/Safe.antt =====
-- Which answers the validators of src/fh_agent/planner/planner_output.py let pass.
use mathlib.Core.List.{cons≢nil}
use mathlib.Core.Option.{none-ne-some}
use autonomous_game_agent.Prelude.{String, false, List, [], ◌∷◌, Option, none, ◌≡◌, refl, sym, ◌↔◌}
use autonomous_game_agent.Planner.Json.{Json}
use autonomous_game_agent.Planner.Json.Inside.{Inside}
use autonomous_game_agent.Planner.Scan.Complete.{is_control, scan_finds_every_control}
use autonomous_game_agent.Planner.Hidden.Complete.{names_hidden_state, scan_finds_every_hidden_term}
use autonomous_game_agent.Planner.Contract.{
  Rejection, direct_controls, hidden_state_terms, raise_if, reject_direct_control_plans,
  reject_unsafe_content,
}

passed :
    (because : List String → Rejection) (paths : List String) (rest : Option Rejection)
    → raise_if because paths rest ≡ none
    → (paths ≡ []) × (rest ≡ none)
unfolding raise_if
passed because [] rest e = (refl, e)
passed because (path ∷ paths) rest e = absurd (none-ne-some _ (sym e))

passes :
    (because : List String → Rejection) (paths : List String) (rest : Option Rejection)
    → paths ≡ []
    → rest ≡ none
    → raise_if because paths rest ≡ none
unfolding raise_if
passes because [] rest e h = h
passes because (path ∷ paths) rest e h = absurd (cons≢nil e)

-- The first validator of the planner's output lets an answer pass exactly when no value in it, at any depth, gives a
-- direct control; that of the post-mortem output exactly when, moreover, no value in it names hidden state.
pub answer_passes_iff :
    (lower : String → String) (answer : Json)
    → ((reject_direct_control_plans answer ≡ none)
        ↔ ((v : Json) → Inside v answer → is_control v ≡ false))
      × ((reject_unsafe_content lower answer ≡ none) ↔ (
          (v : Json)
          → Inside v answer
          → (is_control v ≡ false) × (names_hidden_state lower v ≡ false)))
unfolding reject_direct_control_plans reject_unsafe_content
answer_passes_iff lower answer =
    let controls = scan_finds_every_control answer "" in
    let terms = scan_finds_every_hidden_term lower answer "" in
    (
      (
        λ e. controls.0 (passed direct_controls _ none e).0,
        λ h. passes direct_controls _ none (controls.1 h) refl,
      ),
      (
        λ e v m.
            let first = passed direct_controls _ _ e in
            let second = passed hidden_state_terms _ none first.1 in
            (controls.0 first.0 v m, terms.0 second.0 v m),
        λ h.
            passes direct_controls _ _ (controls.1 λ v m. (h v m).0)
              (passes hidden_state_terms _ none (terms.1 λ v m. (h v m).1) refl),
      ),
    )
