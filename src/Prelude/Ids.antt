-- ===== src/Prelude/Ids.antt =====
-- Lists of evidence IDs: membership, and the loop that appends what is not there yet.
use mathlib.Core.Bool.{Bool, true, false, ◌&&◌, ◌||◌}
use mathlib.Core.Path.{◌≡◌, refl}
use mathlib.Core.List.{List, [], ◌∷◌, ◌++◌}
use native.Mathlib.Omega.{arith}
use Prim.Native.String.{String}
use text.Mathlib.Text.{◌==◌ as str_eq}
use text.Mathlib.TextEquality.{eq_iff}
use autonomous_game_agent.Prelude.Tests.{if◌then◌else◌, is_empty}

-- `a in xs`
unfoldable pub contains : List String → String → Bool
contains [] a = false
contains (x ∷ xs) a = str_eq x a || contains xs a

-- `if a not in xs: xs.append(a)`
pub append_new : List String → String → List String
append_new xs a = if contains xs a then xs else xs ++ a ∷ []

-- the inner loop: `for a in source: if a not in xs: xs.append(a)`
unfoldable pub extend_new : List String → List String → List String
unfolding append_new contains
extend_new xs [] = xs
extend_new xs (a ∷ source) = extend_new (append_new xs a) source

-- the outer loop, over several sources
unfoldable pub extend_all : List String → List (List String) → List String
unfolding extend_new
extend_all xs [] = xs
extend_all xs (source ∷ sources) = extend_all (extend_new xs source) sources

-- No ID stands twice.
abbrev pub NoRepeats : List String → Type 0
NoRepeats [] = Unit
NoRepeats (x ∷ xs) = (contains xs x ≡ false) × NoRepeats xs

-- `a` is in one of the sources.
unfoldable pub in_any : List (List String) → String → Bool
in_any [] a = false
in_any (source ∷ sources) a = contains source a || in_any sources a

pub contains-append :
    (xs ys : List String) (a : String) → contains (xs ++ ys) a ≡ (contains xs a || contains ys a)
unfolding contains
contains-append [] ys a = refl
contains-append (x ∷ xs) ys a = ground (arith, contains-append xs ys a)

contains-single : (a b : String) → contains (a ∷ []) b ≡ str_eq a b
unfolding contains
contains-single a b = ground arith

contains-nil : (b : String) → contains [] b ≡ false
unfolding contains
contains-nil b = refl

contains-cons :
    (a : String) (xs : List String) (b : String)
    → contains (a ∷ xs) b ≡ (str_eq a b || contains xs b)
unfolding contains
contains-cons a xs b = refl

contains-append_new :
    (xs : List String) (a b : String) → contains (append_new xs a) b ≡ (contains xs b || str_eq a b)
unfolding append_new
contains-append_new xs a b =
    ground (arith, eq_iff a b, contains-append xs (a ∷ []) b, contains-single a b)

NoRepeats-snoc :
    (xs : List String) (a : String)
    → contains xs a ≡ false
    → NoRepeats xs
    → NoRepeats (xs ++ a ∷ [])
unfolding contains
NoRepeats-snoc [] a h n = (refl, tt)
NoRepeats-snoc (x ∷ xs) a h n = ground (
  arith,
  eq_iff x a,
  eq_iff a x,
  contains-append xs (a ∷ []) x,
  contains-single a x,
  NoRepeats-snoc xs a,
)

append_new-NoRepeats : (xs : List String) (a : String) → NoRepeats xs → NoRepeats (append_new xs a)
unfolding append_new
append_new-NoRepeats xs a n = ground (arith, NoRepeats-snoc xs a)

pub extend_new-NoRepeats :
    (xs source : List String) → NoRepeats xs → NoRepeats (extend_new xs source)
unfolding extend_new
extend_new-NoRepeats xs [] n = n
extend_new-NoRepeats xs (a ∷ source) n =
    extend_new-NoRepeats (append_new xs a) source (append_new-NoRepeats xs a n)

-- The result of the loops has no ID twice.
pub extend_all-NoRepeats :
    (xs : List String) (sources : List (List String))
    → NoRepeats xs
    → NoRepeats (extend_all xs sources)
unfolding extend_all
extend_all-NoRepeats xs [] n = n
extend_all-NoRepeats xs (s ∷ sources) n =
    extend_all-NoRepeats (extend_new xs s) sources (extend_new-NoRepeats xs s n)

pub contains-extend_new :
    (xs source : List String) (b : String)
    → contains (extend_new xs source) b ≡ (contains xs b || contains source b)
unfolding extend_new
contains-extend_new xs [] b = ground (arith, contains-nil b)
contains-extend_new xs (a ∷ source) b = ground (
  arith,
  contains-extend_new (append_new xs a) source b,
  contains-append_new xs a b,
  contains-cons a source b,
)

-- An ID stands in the result exactly when it stood at the start or in a source.
pub contains-extend_all :
    (xs : List String) (sources : List (List String)) (b : String)
    → contains (extend_all xs sources) b ≡ (contains xs b || in_any sources b)
unfolding extend_all in_any
contains-extend_all xs [] b = ground arith
contains-extend_all xs (s ∷ sources) b =
    ground (arith, contains-extend_all (extend_new xs s) sources b, contains-extend_new xs s b)

append_new-ne-nil : (xs : List String) (a : String) → is_empty (append_new xs a) ≡ false
unfolding append_new contains
append_new-ne-nil [] a = refl
append_new-ne-nil (x ∷ xs) a = ground arith

extend_new-keeps :
    (xs source : List String) → is_empty xs ≡ false → is_empty (extend_new xs source) ≡ false
unfolding extend_new
extend_new-keeps xs [] h = h
extend_new-keeps xs (a ∷ source) h =
    extend_new-keeps (append_new xs a) source (append_new-ne-nil xs a)

pub is_empty-extend_new :
    (xs source : List String) → is_empty (extend_new xs source) ≡ (is_empty xs && is_empty source)
unfolding extend_new
is_empty-extend_new xs [] = ground arith
is_empty-extend_new xs (a ∷ source) =
    ground (arith, extend_new-keeps (append_new xs a) source, append_new-ne-nil xs a)

unfoldable pub every_empty : List (List String) → Bool
every_empty [] = true
every_empty (s ∷ sources) = is_empty s && every_empty sources

-- The result is empty exactly when every part is.
pub is_empty-extend_all :
    (xs : List String) (sources : List (List String))
    → is_empty (extend_all xs sources) ≡ (is_empty xs && every_empty sources)
unfolding extend_all every_empty
is_empty-extend_all xs [] = ground arith
is_empty-extend_all xs (s ∷ sources) =
    ground (arith, is_empty-extend_all (extend_new xs s) sources, is_empty-extend_new xs s)
