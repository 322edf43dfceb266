-- ===== src/Planner/Paths.antt =====
-- The paths that the scans of src/fh_agent/planner/planner_output.py report, and lists of them that are empty.
use mathlib.Core.List.{append-eq-nil_iff, cons≢nil}
use mathlib.Core.Bool.{true≢false}
use autonomous_game_agent.Prelude.{
  ℕ, String, Bool, true, false, List, [], ◌∷◌, ◌++◌, ◌||◌, ◌≡◌, refl, if◌then◌else◌, str_eq,
}
use autonomous_game_agent.Planner.Text.{decimal, ◌<>◌}

-- `violations.append(path)` under a test
abbrev pub one_if : Bool → String → List String
one_if b path = if b then path ∷ [] else []

-- `f"{path}.{key_text}" if path else key_text`
unfoldable pub key_path : String → String → String
key_path path key_text = if str_eq path "" then key_text else path <> "." <> key_text

-- `f"{path}[{index}]" if path else f"[{index}]"`
unfoldable pub index_path : String → ℕ → String
index_path path i =
    if str_eq path "" then "[" <> decimal i <> "]" else path <> "[" <> decimal i <> "]"

-- `path or "<root>"`
unfoldable pub root_path : String → String
root_path path = if str_eq path "" then "<root>" else path

pub one_if-nil : (b : Bool) (path : String) → one_if b path ≡ [] → b ≡ false
one_if-nil true path e = absurd (cons≢nil e)
one_if-nil false path e = refl

-- two lists of violations, the first under a test, that are both empty
pub split :
    (b : Bool) (path : String) (xs : List String)
    → one_if b path ++ xs ≡ []
    → (b ≡ false) × (xs ≡ [])
split b path xs e = let both = append-eq-nil_iff.0 e in (one_if-nil b path both.0, both.1)

pub join :
    (b : Bool) (path : String) (xs : List String) → b ≡ false → xs ≡ [] → one_if b path ++ xs ≡ []
join true path xs b_off xs_nil = absurd (true≢false b_off)
join false path xs b_off xs_nil = xs_nil

pub neither : (a b : Bool) → a ≡ false → b ≡ false → (a || b) ≡ false
neither true b a_off b_off = a_off
neither false b a_off b_off = b_off

pub left_off : (a b : Bool) → (a || b) ≡ false → a ≡ false
left_off true b e = e
left_off false b e = refl

pub right_off : (a b : Bool) → (a || b) ≡ false → b ≡ false
right_off true b e = absurd (true≢false e)
right_off false b e = e

pub one_if-off : (b : Bool) (path : String) → b ≡ false → one_if b path ≡ []
one_if-off true path e = absurd (true≢false e)
one_if-off false path e = refl
