-- ===== src/Manager/Reward/Derived.antt =====
-- What a verified outcome earns under a profile.
use autonomous_game_agent.Prelude.{
  true, false, Option, none, some, List, [], ◌∷◌, ◌≡◌, refl, ◌∙◌, arith, if◌then◌else◌, Bool-cases,
  inl, inr,
}
use autonomous_game_agent.Prelude.Int.{
  ℤ, pos, negsuc, neg_ℤ, ◌+ℤ◌, ◌*ℤ◌, int_laws, one_times, minus_one_times,
}
use autonomous_game_agent.Verifier.Schemas.{VerifierStatus, FailureKind, VerifierResult}
use autonomous_game_agent.Manager.Reward.{
  RewardTermName, RewardTerm, RewardProfile, term_eq, has_term, term_names_unique, profile_accepted,
  contributions_of, sum_values, derive_verified_reward,
}

-- The weight that a list of terms gives to a name, 0 if it has none.
pub weight_of : RewardTermName → List RewardTerm → ℤ
weight_of n [] = pos 0
weight_of n (t ∷ terms) = if term_eq t.name n then t.weight else weight_of n terms

term_eq_sym : (c a b : RewardTermName) → term_eq a b ≡ true → term_eq c a ≡ term_eq c b
unfolding term_eq
term_eq_sym c a b h = ground arith

absent_contributes_nothing :
    (n : RewardTermName) (k : ℤ) (terms : List RewardTerm)
    → has_term n terms ≡ false
    → contributions_of (some n) k terms ≡ []
unfolding has_term contributions_of
absent_contributes_nothing n k [] h = refl
absent_contributes_nothing n k (t ∷ terms) h = ground (arith, absent_contributes_nothing n k terms)

has_term_lem :
    (a b : RewardTermName) (terms : List RewardTerm)
    → term_eq a b ≡ true
    → has_term a terms ≡ has_term b terms
unfolding has_term
has_term_lem a b [] h = refl
has_term_lem a b (t ∷ terms) h = ground (arith, term_eq_sym t.name a b h, has_term_lem a b terms h)

zero_plus : (a : ℤ) → pos 0 +ℤ a ≡ a
zero_plus a = omega int_laws

-- What a failure of the given kind costs.
pub loss : Option FailureKind → List RewardTerm → ℤ
loss (some FailureKind.death) terms = neg_ℤ (weight_of RewardTermName.avoid_death terms)
loss (some FailureKind.timeout) terms = neg_ℤ (weight_of RewardTermName.avoid_timeout terms)
loss (some FailureKind.no_progress) terms =
    neg_ℤ (weight_of RewardTermName.avoid_repeated_no_progress terms)
loss _ terms = pos 0

sum-contributions :
    (n : RewardTermName) (k : ℤ) (terms : List RewardTerm)
    → term_names_unique terms ≡ true
    → k *ℤ pos 0 ≡ pos 0
    → sum_values (pos 0) (contributions_of (some n) k terms) ≡ k *ℤ weight_of n terms
unfolding term_names_unique contributions_of sum_values weight_of
sum-contributions n k [] u z = ground arith
sum-contributions n k (t ∷ terms) u z = elim (Bool-cases (term_eq t.name n)) [
  | inl same ↦ ground (
    arith,
    same,
    absent_contributes_nothing n k terms (ground (arith, has_term_lem t.name n terms same)),
    zero_plus (k *ℤ t.weight),
  )
  | inr other ↦ ground (arith, other, sum-contributions n k terms (ground arith) z)
]

earned :
    (n : RewardTermName) (terms : List RewardTerm)
    → term_names_unique terms ≡ true
    → sum_values (pos 0) (contributions_of (some n) (pos 1) terms) ≡ weight_of n terms
earned n terms u =
    sum-contributions n (pos 1) terms u (one_times (pos 0)) ∙ one_times (weight_of n terms)

lost :
    (n : RewardTermName) (terms : List RewardTerm)
    → term_names_unique terms ≡ true
    → sum_values (pos 0) (contributions_of (some n) (negsuc 0) terms) ≡ neg_ℤ (weight_of n terms)
lost n terms u =
    sum-contributions n (negsuc 0) terms u (minus_one_times (pos 0))
    ∙ minus_one_times (weight_of n terms)

nothing_supported :
    (terms : List RewardTerm) → sum_values (pos 0) (contributions_of none (pos 0) terms) ≡ pos 0
unfolding contributions_of sum_values
nothing_supported [] = refl
nothing_supported (t ∷ terms) = nothing_supported terms

-- What a verdict is worth by the weights of a profile.
pub worth : RewardProfile → VerifierResult → ℤ
worth p r = elim r.status [
  | VerifierStatus.success ↦ weight_of RewardTermName.skill_success p.terms
  | VerifierStatus.failure ↦ loss r.failure_kind p.terms
  | _ ↦ pos 0
]

-- With an accepted profile the total is the weight of the one term that the verdict justifies: that
-- of `skill_success` for a success, the negated one of `avoid_death`, `avoid_timeout` or
-- `avoid_repeated_no_progress` for a failure of that kind, and 0 for every other verdict.
pub derived_total :
    (p : RewardProfile) (r : VerifierResult)
    → profile_accepted p ≡ true
    → (derive_verified_reward p r).total ≡ worth p r
unfolding derive_verified_reward worth loss profile_accepted
derived_total p r h =
    let u : term_names_unique p.terms ≡ true = ground arith in
    ground (
      arith,
      earned RewardTermName.skill_success p.terms u,
      lost RewardTermName.avoid_death p.terms u,
      lost RewardTermName.avoid_timeout p.terms u,
      lost RewardTermName.avoid_repeated_no_progress p.terms u,
      nothing_supported p.terms,
    )
