-- ===== src/Body/Skills/Approach.antt =====
-- `movement_action_toward` approaches its target.
use autonomous_game_agent.Prelude.{
  ℕ, zero, suc, ◌+◌, true, false, ◌≡◌, ◌≢◌, arith, ◌&&◌, leb, Bool-cases, inl, inr,
}
use autonomous_game_agent.Prelude.Int.{ℤ, pos, ◌+ℤ◌, ◌-ℤ◌, abs, ltb_ℤ, int_laws}
use autonomous_game_agent.Body.Actions.{PrimitiveAction}
use autonomous_game_agent.Body.Skills.{movement_action_toward}

-- Where a primitive movement of one unit leads; y grows downwards.
unfoldable pub moved : PrimitiveAction → ℤ × ℤ → ℤ × ℤ
moved PrimitiveAction.move_up_short (x, y) = (x, y -ℤ pos 1)
moved PrimitiveAction.move_down_short (x, y) = (x, y +ℤ pos 1)
moved PrimitiveAction.move_left_short (x, y) = (x -ℤ pos 1, y)
moved PrimitiveAction.move_right_short (x, y) = (x +ℤ pos 1, y)
moved _ p = p

-- The number of unit movements from a point to another.
unfoldable pub steps_between : ℤ × ℤ → ℤ × ℤ → ℕ
steps_between (x, y) (u, v) = abs (u -ℤ x) + abs (v -ℤ y)

sub-plus_one : (u x : ℤ) → u -ℤ (x +ℤ pos 1) ≡ (u -ℤ x) -ℤ pos 1
sub-plus_one u x = omega int_laws

sub-minus_one : (u x : ℤ) → u -ℤ (x -ℤ pos 1) ≡ (u -ℤ x) +ℤ pos 1
sub-minus_one u x = omega int_laws

abs-pred : (d : ℤ) → ltb_ℤ (pos 0) d ≡ true → suc (abs (d -ℤ pos 1)) ≡ abs d
unfolding ◌-ℤ◌
abs-pred d h = ground arith

abs-succ : (d : ℤ) → ltb_ℤ d (pos 0) ≡ true → suc (abs (d +ℤ pos 1)) ≡ abs d
unfolding ◌+ℤ◌
abs-succ d h = ground arith

plus_side : (u x : ℤ) → ltb_ℤ (pos 0) (u -ℤ x) ≡ true → suc (abs (u -ℤ (x +ℤ pos 1))) ≡ abs (u -ℤ x)
plus_side u x h = rw sub-plus_one (abs-pred (u -ℤ x) h)

minus_side :
    (u x : ℤ) → ltb_ℤ (u -ℤ x) (pos 0) ≡ true → suc (abs (u -ℤ (x -ℤ pos 1))) ≡ abs (u -ℤ x)
minus_side u x h = rw sub-minus_one (abs-succ (u -ℤ x) h)

no_sign : (d : ℤ) → ltb_ℤ (pos 0) d ≡ false → ltb_ℤ d (pos 0) ≡ false → abs d ≡ 0
no_sign d h k = ground arith

-- Away from the target, the movement chosen leads one unit closer to it.
pub movement_approaches :
    (p q : ℤ × ℤ)
    → steps_between p q ≢ 0
    → suc (steps_between (moved (movement_action_toward p q) p) q) ≡ steps_between p q
unfolding movement_action_toward moved steps_between
movement_approaches (x, y) (u, v) h =
    elim (Bool-cases (leb (abs dy) (abs dx) && ltb_ℤ (pos 0) dx)) [
      | inl right ↦ rw right (omega (arith, plus_side u x (ground arith)))
      | inr r ↦ elim (Bool-cases (leb (abs dy) (abs dx) && ltb_ℤ dx (pos 0))) [
        | inl left ↦ rw (r, left) (omega (arith, minus_side u x (ground arith)))
        | inr l ↦ elim (Bool-cases (ltb_ℤ (pos 0) dy)) [
          | inl down ↦ rw (r, l, down) (omega (arith, plus_side v y down))
          | inr d ↦ elim (Bool-cases (ltb_ℤ dy (pos 0))) [
            | inl up ↦ rw (r, l, d, up) (omega (arith, minus_side v y up))
            | inr n ↦ absurd (h (ground (arith, no_sign dy d n, no_sign dx)))
          ]
        ]
      ]
    ]
  where
    dx : ℤ
    dx = u -ℤ x

    dy : ℤ
    dy = v -ℤ y

-- `n` movements, each chosen at the place where the last one led.
unfoldable pub walk : ℕ → ℤ × ℤ → ℤ × ℤ → ℤ × ℤ
walk zero p q = p
walk (suc n) p q = walk n (moved (movement_action_toward p q) p) q

-- From any place the movements chosen reach the target, in as many steps as the horizontal and the
-- vertical distance together.
pub walk_arrives : (n : ℕ) (p q : ℤ × ℤ) → steps_between p q ≡ n → steps_between (walk n p q) q ≡ 0
unfolding walk
walk_arrives zero p q h = h
walk_arrives (suc n) p q h =
    walk_arrives n (moved (movement_action_toward p q) p) q
      (omega (arith, movement_approaches p q (omega arith)))
