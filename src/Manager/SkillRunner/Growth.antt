-- ===== src/Manager/SkillRunner/Growth.antt =====
-- How the inputs sent grow in a run of src/fh_agent/manager/skill_runner.py.
use autonomous_game_agent.Prelude.{
  ℕ, ◌+◌, ◌≤◌, Bool, true, false, not, List, [], ◌∷◌, ◌++◌, ◌≡◌, refl, ◌∙◌, sym, ap, arith, length,
  length-append, All, All-append, ◌⊎◌, inl, inr, append-nil, append_assoc,
}
use autonomous_game_agent.Body.Actions.{PrimitiveAction, action_in}
use autonomous_game_agent.Manager.SkillRunner.Locals.{Round, finished, continues}

-- `after` is `before` with at most `n` more inputs, each of them allowed.
pub record Grew (allowed : List PrimitiveAction) (n : ℕ) (before after : List PrimitiveAction)
    : Type 0 where
  pub sent : List PrimitiveAction
  pub grown : after ≡ before ++ sent
  pub only_allowed : All (λ a. action_in a allowed ≡ true) sent
  pub few : length sent ≤ n

module _ {allowed : List PrimitiveAction} where
  pub Grew-none : (n : ℕ) {a b : List PrimitiveAction} → b ≡ a → Grew allowed n a b
  Grew-none n {a} h = record {
    sent = [];
    grown = h ∙ sym (append-nil a);
    only_allowed = tt;
    few = omega arith;
  }

  pub Grew-one :
      {a b : List PrimitiveAction} (x : PrimitiveAction)
      → action_in x allowed ≡ true
      → (b ≡ a) ⊎ (b ≡ a ++ x ∷ [])
      → Grew allowed 1 a b
  Grew-one x h (inl e) = Grew-none 1 e
  Grew-one x h (inr e) = record {
    sent = x ∷ [];
    grown = e;
    only_allowed = (h, tt);
    few = omega arith;
  }

  pub Grew-join :
      (m n k : ℕ) {a b c : List PrimitiveAction}
      → m + n ≤ k
      → Grew allowed m a b
      → Grew allowed n b c
      → Grew allowed k a c
  Grew-join m n k {a} {b} {c} i g h = record {
    sent = g.sent ++ h.sent;
    grown = h.grown ∙ ap (λ x. x ++ h.sent) g.grown ∙ append_assoc a g.sent h.sent;
    only_allowed = All-append _ g.sent h.sent g.only_allowed h.only_allowed;
    few =
        (let p : length g.sent ≤ m = g.few in
          let q : length h.sent ≤ n = h.few in omega (arith, length-append g.sent h.sent));
  }

  pub widen :
      (m n : ℕ) {a b : List PrimitiveAction} → m ≤ n → Grew allowed m a b → Grew allowed n a b
  widen m n h g =
      let p : length g.sent ≤ m = g.few in
      record { sent = g.sent; grown = g.grown; only_allowed = g.only_allowed; few = omega arith }

pub allowed_of : (b : Bool) → not b ≡ false → b ≡ true
allowed_of true h = refl
allowed_of false h = cc

-- the world that a round leaves
abbrev pub world_of : {W : Type 0} → Round W → W
world_of (finished o) = o.world
world_of (continues l) = l.world
