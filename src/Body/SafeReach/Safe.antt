-- ===== src/Body/SafeReach/Safe.antt =====
-- The movement that is chosen is within the risk limit, and the best one that is.
use mathlib.Core.Path.{subst}
use autonomous_game_agent.Prelude.{
  sym, ℕ, Bool, true, false, not, List, [], ◌∷◌, ◌≡◌, refl, ap, ◌⊎◌, inl, inr, All, if_holds,
  if◌then◌else◌, arith,
}
use autonomous_game_agent.Body.Actions.{PrimitiveAction}
use autonomous_game_agent.Body.SafeReach.{
  Floats, SafeReachTargetState, SafeReachTargetDecision, SafetyFilterResult, assess_action,
  assess_actions, assess_movement, safe_candidates, candidate_sort_key, key_less, best_from, decide,
  choose_safe_reach_action, wait_out, go, movement,
}

-- The order of the sort keys, as that of floats without NaN.
pub record IsKeyOrder {F : Type 0} (less : F × F × ℕ → F × F × ℕ → Bool) : Type 0 where
  pub irreflexive : (a : F × F × ℕ) → less a a ≡ false
  pub asymmetric : (a b : F × F × ℕ) → less a b ≡ true → less b a ≡ false
  pub transitive : (a b c : F × F × ℕ) → less b a ≡ false → less c b ≡ false → less c a ≡ false

-- the four movements
abbrev pub IsMovement : PrimitiveAction → Type 0
IsMovement PrimitiveAction.move_up_short = Unit
IsMovement PrimitiveAction.move_down_short = Unit
IsMovement PrimitiveAction.move_left_short = Unit
IsMovement PrimitiveAction.move_right_short = Unit
IsMovement PrimitiveAction.confirm = ⊥
IsMovement PrimitiveAction.cancel = ⊥
IsMovement PrimitiveAction.open_menu = ⊥
IsMovement PrimitiveAction.wait = ⊥

module _ {F : Type 0} (fl : Floats F) (s : SafeReachTargetState F) where
  abbrev pub NotBefore : SafetyFilterResult F → SafetyFilterResult F → Type 0
  NotBefore b r = key_less fl (candidate_sort_key fl s r) (candidate_sort_key fl s b) ≡ false

  -- A choice of one of the four movements, with its risk: it is not blocked, and no other movement that is not blocked
  -- sorts before it.
  pub record IsBest (d : SafeReachTargetDecision F) : Type 0 where
    pub moving : d.blocked ≡ false
    pub movement : IsMovement d.action
    pub free : (assess_action fl s d.action).blocked ≡ false
    pub risk : d.risk_score ≡ (assess_action fl s d.action).risk_score
    pub best :
        (a : PrimitiveAction)
        → IsMovement a
        → (assess_action fl s a).blocked ≡ false
        → NotBefore (assess_action fl s d.action) (assess_action fl s a)

  -- A decision: it waits, and each of the four movements is blocked; or it moves for the best.
  abbrev pub Decided : SafeReachTargetDecision F → Type 0
  Decided d =
      ((d.blocked ≡ true)
        × (d.action ≡ PrimitiveAction.wait)
        × ((a : PrimitiveAction) → IsMovement a → (assess_action fl s a).blocked ≡ true))
      ⊎ IsBest d

  -- the assessment of one of the four movements
  abbrev IsAssessed : SafetyFilterResult F → Type 0
  IsAssessed r = (r ≡ assess_action fl s r.action) × IsMovement r.action

  abbrev IsFree : SafetyFilterResult F → Type 0
  IsFree r = (r.blocked ≡ false) × IsAssessed r

  unblocked : (b : Bool) → not b ≡ true → b ≡ false
  unblocked b h = ground arith

  is_blocked : (b : Bool) → not b ≡ false → b ≡ true
  is_blocked b h = ground arith

  safe_candidates-IsFree :
      (rs : List (SafetyFilterResult F)) → All IsAssessed rs → All IsFree (safe_candidates rs)
  unfolding safe_candidates
  safe_candidates-IsFree [] h = tt
  safe_candidates-IsFree (r ∷ rs) h =
      let rest : All IsFree (safe_candidates rs) = safe_candidates-IsFree rs h.1 in
      if_holds (All IsFree) (not r.blocked) (λ e. ((unblocked r.blocked e, h.0), rest)) (λ e. rest)

  safe_candidates-nil :
      (rs : List (SafetyFilterResult F)) → safe_candidates rs ≡ [] → All (λ r. r.blocked ≡ true) rs
  unfolding safe_candidates
  safe_candidates-nil [] h = tt
  safe_candidates-nil (r ∷ rs) h =
      let rest : safe_candidates rs ≡ [] → All (λ x. x.blocked ≡ true) rs =
        safe_candidates-nil rs in
      if_holds
        (λ (xs : List (SafetyFilterResult F)). xs ≡ [] → All (λ x. x.blocked ≡ true) (r ∷ rs))
        (not r.blocked) (λ e k. cc) (λ e k. (is_blocked r.blocked e, rest k)) h

  -- what holds of the candidates holds of the results that are not blocked
  lift :
      (P : SafetyFilterResult F → Type 0) (rs : List (SafetyFilterResult F))
      → All P (safe_candidates rs)
      → All (λ r. r.blocked ≡ false → P r) rs
  unfolding safe_candidates
  lift P [] h = tt
  lift P (r ∷ rs) h =
      let rest : All P (safe_candidates rs) → All (λ x. x.blocked ≡ false → P x) rs = lift P rs in
      if_holds
        (λ (xs : List (SafetyFilterResult F)).
          All P xs → All (λ x. x.blocked ≡ false → P x) (r ∷ rs))
        (not r.blocked) (λ e k. (λ q. k.0, rest k.1))
        (λ e k. (λ q. absurd (let b : r.blocked ≡ true = is_blocked r.blocked e in cc), rest k)) h

  -- the better of two candidates
  abbrev better : SafetyFilterResult F → SafetyFilterResult F → SafetyFilterResult F
  better b r = if key_less fl (candidate_sort_key fl s r) (candidate_sort_key fl s b) then r else b

  best_from-holds :
      (P : SafetyFilterResult F → Type 0) (b : SafetyFilterResult F)
      (rs : List (SafetyFilterResult F))
      → P b
      → All P rs
      → P (best_from fl s b rs)
  unfolding best_from
  best_from-holds P b [] h k = h
  best_from-holds P b (r ∷ rs) h k =
      best_from-holds P (better b r) rs
        (if_holds P (key_less fl (candidate_sort_key fl s r) (candidate_sort_key fl s b)) (λ e. k.0)
          (λ e. h))
        k.1

  module _ (order : IsKeyOrder (key_less fl)) where
    best_from-first :
        (b : SafetyFilterResult F) (rs : List (SafetyFilterResult F)) (x : SafetyFilterResult F)
        → NotBefore b x
        → NotBefore (best_from fl s b rs) x
    unfolding best_from
    best_from-first b [] x h = h
    best_from-first b (r ∷ rs) x h = best_from-first (better b r) rs x (
        if_holds (λ y. NotBefore y x)
          (key_less fl (candidate_sort_key fl s r) (candidate_sort_key fl s b))
          (λ e. order.transitive _ _ _ (order.asymmetric _ _ e) h) (λ e. h))

    best_from-all :
        (b : SafetyFilterResult F) (rs : List (SafetyFilterResult F))
        → All (NotBefore (best_from fl s b rs)) rs
    unfolding best_from
    best_from-all b [] = tt
    best_from-all b (r ∷ rs) = (
      best_from-first (better b r) rs r (
          if_holds (λ y. NotBefore y r)
            (key_less fl (candidate_sort_key fl s r) (candidate_sort_key fl s b))
            (λ e. order.irreflexive _) (λ e. e)),
      best_from-all (better b r) rs,
    )

    -- what all results of the list `rs` have, every movement's has
    abbrev Covers : List (SafetyFilterResult F) → Type 1
    Covers rs =
        (P : SafetyFilterResult F → Type 0)
        → All P rs
        → (a : PrimitiveAction) → IsMovement a
        → P (assess_action fl s a)

    decide-Decided :
        (cs : List (SafetyFilterResult F)) (r : SafetyFilterResult F)
        (rs : List (SafetyFilterResult F))
        → safe_candidates (r ∷ rs) ≡ cs
        → All IsAssessed (r ∷ rs)
        → Covers (r ∷ rs)
        → Decided (decide fl s cs r rs)
    unfolding decide wait_out go
    decide-Decided [] r rs e h covers =
        inl (refl, refl, covers (λ x. x.blocked ≡ true) (safe_candidates-nil (r ∷ rs) e))
    decide-Decided (c ∷ cs) r rs e h covers =
        let chosen = best_from fl s c cs in
        let frees : All IsFree (c ∷ cs) =
          subst (All IsFree) e (safe_candidates-IsFree (r ∷ rs) h) in
        let free : IsFree chosen = best_from-holds IsFree c cs frees.0 frees.1 in
        let least : All (NotBefore chosen) (c ∷ cs) = (
          best_from-first c cs c (order.irreflexive (candidate_sort_key fl s c)),
          best_from-all c cs,
        ) in
        let first : All (λ x. x.blocked ≡ false → NotBefore chosen x) (r ∷ rs) =
          lift (NotBefore chosen) (r ∷ rs) (subst (All (NotBefore chosen)) (sym e) least) in
        inr (record {
          moving = refl;
          movement = free.1.1;
          free = subst (λ x. x.blocked ≡ false) free.1.0 free.0;
          risk = ap (λ (x : SafetyFilterResult F). x.risk_score) free.1.0;
          best =
              subst
                (λ x.
                  (a : PrimitiveAction)
                  → IsMovement a
                  → (assess_action fl s a).blocked ≡ false
                  → NotBefore x (assess_action fl s a))
                free.1.0 (covers (λ x. x.blocked ≡ false → NotBefore chosen x) first);
        })

    four-Covers : Covers (
        assess_action fl s PrimitiveAction.move_right_short
        ∷ assess_action fl s PrimitiveAction.move_left_short
        ∷ assess_action fl s PrimitiveAction.move_down_short
        ∷ assess_action fl s PrimitiveAction.move_up_short
        ∷ [])
    four-Covers P (right, (left, (down, (up, _)))) PrimitiveAction.move_right_short m = right
    four-Covers P (right, (left, (down, (up, _)))) PrimitiveAction.move_left_short m = left
    four-Covers P (right, (left, (down, (up, _)))) PrimitiveAction.move_down_short m = down
    four-Covers P (right, (left, (down, (up, _)))) PrimitiveAction.move_up_short m = up
    four-Covers P h PrimitiveAction.confirm m = absurd m
    four-Covers P h PrimitiveAction.cancel m = absurd m
    four-Covers P h PrimitiveAction.open_menu m = absurd m
    four-Covers P h PrimitiveAction.wait m = absurd m

    -- With sort keys ordered as those of floats without NaN, the choice waits only if each of the four movements is
    -- blocked, and otherwise takes, with its risk, one of the four that is not blocked, before which no other of the
    -- four that is not blocked sorts by distance to the target, risk and order of listing.
    pub choose_safe_reach_action-Decided : Decided (choose_safe_reach_action fl s)
    unfolding choose_safe_reach_action assess_actions assess_action movement assess_movement
    choose_safe_reach_action-Decided =
        decide-Decided _ (assess_action fl s PrimitiveAction.move_right_short)
          (assess_actions fl s (
            PrimitiveAction.move_left_short ∷ PrimitiveAction.move_down_short
            ∷ PrimitiveAction.move_up_short ∷ []))
          refl ((refl, tt), ((refl, tt), ((refl, tt), ((refl, tt), tt)))) four-Covers
