-- ===== src/Game/Call.antt =====
-- A call of code behind a boundary, which returns or raises.
use autonomous_game_agent.Prelude.{◌≡◌, refl, ◌⊎◌, inl, inr}

pub data Call (A : Type 0) : Type 0 where
  returns : A → Call A
  raises : Call A

pub Call-cases : {A : Type 0} (c : Call A) → (c ≡ raises) ⊎ ((a : A) × (c ≡ returns a))
Call-cases (returns a) = inr (a, refl)
Call-cases raises = inl refl
