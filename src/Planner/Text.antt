-- ===== src/Planner/Text.antt =====
-- What the scans of src/fh_agent/planner/planner_output.py use of Python's texts: the order of texts and
-- `sorted(set(...))`, decimal numbers, and joining.
use Prim.Native.Nat.{Ordering, ◌/◌, ◌%◌}
use Prim.Native.String.{compare, char_at, ◌++◌ as append, ◌∷◌ as ◌∷ₛ◌}
use autonomous_game_agent.Prelude.{ℕ, zero, suc, String, List, [], ◌∷◌, ◌≡◌, refl, if◌then◌else◌}
use autonomous_game_agent.Prelude.{ltb}
use mathlib.Core.List.{cons≢nil}

infixr 5 ◌<>◌
-- the text of `a` and then that of `b`
abbrev pub ◌<>◌ : String → String → String
a <> b = append a b

-- where a text goes in a sorted list without repetitions, by its order with the first
put : Ordering → String → String → List String → List String → List String
put Ordering.lt x y ys rest = x ∷ y ∷ ys
put Ordering.eq x y ys rest = y ∷ ys
put Ordering.gt x y ys rest = y ∷ rest

unfoldable insert : String → List String → List String
unfolding put
insert x [] = x ∷ []
insert x (y ∷ ys) = put (compare x y) x y ys (insert x ys)

-- `sorted(set(xs))`
unfoldable pub sorted_set : List String → List String
unfolding insert
sorted_set [] = []
sorted_set (x ∷ xs) = insert x (sorted_set xs)

digit : ℕ → String
digit k = char_at "0123456789" k ∷ₛ ""

-- the digits of `n`, of which there are at most as many as the fuel
unfoldable digits : ℕ → ℕ → String
unfolding digit
digits zero n = ""
digits (suc fuel) n =
    let rest = digits fuel (n / 10) in if ltb n 10 then digit n else rest <> digit (n % 10)

-- `str(n)`: a number has fewer digits than its successor's units
unfoldable pub decimal : ℕ → String
unfolding digits
decimal n = digits (suc n) n

put-not_nil : (o : Ordering) (x y : String) (ys rest : List String) → put o x y ys rest ≡ [] → ⊥
unfolding put
put-not_nil Ordering.lt x y ys rest e = cons≢nil e
put-not_nil Ordering.eq x y ys rest e = cons≢nil e
put-not_nil Ordering.gt x y ys rest e = cons≢nil e

insert-not_nil : (x : String) (ys : List String) → insert x ys ≡ [] → ⊥
unfolding insert
insert-not_nil x [] e = cons≢nil e
insert-not_nil x (y ∷ ys) e = put-not_nil (compare x y) x y ys (insert x ys) e

pub sorted_set-nil : (xs : List String) → sorted_set xs ≡ [] → xs ≡ []
unfolding sorted_set
sorted_set-nil [] e = refl
sorted_set-nil (x ∷ xs) e = absurd (insert-not_nil x (sorted_set xs) e)

-- `sorted(xs)`, where what occurs again is kept
put_again : Ordering → String → String → List String → List String → List String
put_again Ordering.lt x y ys rest = x ∷ y ∷ ys
put_again Ordering.eq x y ys rest = x ∷ y ∷ ys
put_again Ordering.gt x y ys rest = y ∷ rest

unfoldable insert_again : String → List String → List String
unfolding put_again
insert_again x [] = x ∷ []
insert_again x (y ∷ ys) = put_again (compare x y) x y ys (insert_again x ys)

unfoldable pub sorted : List String → List String
unfolding insert_again
sorted [] = []
sorted (x ∷ xs) = insert_again x (sorted xs)
