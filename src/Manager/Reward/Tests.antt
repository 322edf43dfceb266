-- ===== src/Manager/Reward/Tests.antt =====
-- The theorem on rewards, at a success.
use autonomous_game_agent.Prelude.{◌≡◌, refl, [], ◌∷◌}
use autonomous_game_agent.Verifier.Schemas.{success_with}
use autonomous_game_agent.Manager.Reward.{derive_verified_reward, profile_accepted}
use autonomous_game_agent.Manager.Reward.Derived.{derived_total, worth}
use autonomous_game_agent.Samples.{profile}

derived_total_example :
    (derive_verified_reward profile (success_with ("shot-1" ∷ []))).total
    ≡ worth profile (success_with ("shot-1" ∷ []))
unfolding profile_accepted
derived_total_example = derived_total profile (success_with ("shot-1" ∷ [])) refl
