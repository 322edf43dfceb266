-- ===== src/Manager/Grounding/Only.antt =====
-- The candidate that is left is the one confident sprite on screen.
use autonomous_game_agent.Prelude.{
  ℕ, Bool, true, false, not, List, [], ◌∷◌, ◌++◌, ◌≡◌, refl, sym, ap, ◌∙◌, ◌&&◌, arith, All,
}
use autonomous_game_agent.Prelude.Int.{ℤ, pos, negsuc, ltb_ℤ}
use autonomous_game_agent.Observation.{VisibleSprite}
use autonomous_game_agent.Manager.Grounding.{
  VisibleCandidate, compatible_candidates, reaches, confident_candidates,
}

-- The sprite is on screen and as confident as the policy asks.
abbrev pub is_confident : ℕ → VisibleSprite → Bool
is_confident threshold s =
    not (ltb_ℤ s.screen_position.0 (pos 0))
    && not (ltb_ℤ s.screen_position.1 (pos 0))
    && reaches threshold s.confidence

-- `s` is the one sprite of the list that is confident.
pub record IsOnly (threshold : ℕ) (sprites : List VisibleSprite) (s : VisibleSprite) : Type 0 where
  pub before : List VisibleSprite
  pub after : List VisibleSprite
  pub split : sprites ≡ before ++ s ∷ after
  pub confident : is_confident threshold s ≡ true
  pub none_before : All (λ x. is_confident threshold x ≡ false) before
  pub none_after : All (λ x. is_confident threshold x ≡ false) after

-- The candidate shows the sprite.
pub record Shows (s : VisibleSprite) (c : VisibleCandidate) : Type 0 where
  pub left : s.screen_position.0 ≡ pos c.screen_position.0
  pub top : s.screen_position.1 ≡ pos c.screen_position.1
  pub hash : c.visual_hash ≡ s.visual_hash
  pub confidence : c.confidence ≡ s.confidence
  pub evidence : c.evidence_id ≡ s.evidence_id

abbrev pub picked : ℕ → List VisibleSprite → List VisibleCandidate
unfolding compatible_candidates confident_candidates
picked threshold sprites = confident_candidates threshold (compatible_candidates sprites)

-- What the two comprehensions do with the first sprite.
data Step (threshold : ℕ) (s : VisibleSprite) (sprites : List VisibleSprite) : Type 0 where
  skips :
      is_confident threshold s ≡ false
      → picked threshold (s ∷ sprites) ≡ picked threshold sprites
      → Step threshold s sprites
  takes :
      (c : VisibleCandidate)
      → is_confident threshold s ≡ true
      → Shows s c
      → picked threshold (s ∷ sprites) ≡ c ∷ picked threshold sprites
      → Step threshold s sprites

first-Step :
    (threshold : ℕ) (s : VisibleSprite) (sprites : List VisibleSprite) → Step threshold s sprites
unfolding compatible_candidates confident_candidates
first-Step threshold s sprites =
    at s.screen_position.0 s.screen_position.1 (reaches threshold s.confidence) refl refl refl
  where
    at :
        (x y : ℤ) (b : Bool)
        → s.screen_position.0 ≡ x
        → s.screen_position.1 ≡ y
        → reaches threshold s.confidence ≡ b
        → Step threshold s sprites
    at (negsuc x) y b p q h = skips (ground arith) (rw p refl)
    at (pos x) (negsuc y) b p q h = skips (ground arith) (rw (p, q) refl)
    at (pos x) (pos y) false p q h = skips (ground arith) (rw (p, q, h) refl)
    at (pos x) (pos y) true p q h =
        takes
          (record {
            screen_position = (x, y);
            visual_hash = s.visual_hash;
            confidence = s.confidence;
            evidence_id = s.evidence_id;
          })
          (ground arith)
          (record { left = p; top = q; hash = refl; confidence = refl; evidence = refl })
          (rw (p, q, h) refl)

picked-nil :
    (threshold : ℕ) (sprites : List VisibleSprite)
    → picked threshold sprites ≡ []
    → All (λ x. is_confident threshold x ≡ false) sprites
picked-nil threshold [] h = tt
picked-nil threshold (s ∷ sprites) h =
    at (first-Step threshold s sprites) (λ k. picked-nil threshold sprites k)
  where
    at :
        Step threshold s sprites
        → (picked threshold sprites ≡ [] → All (λ x. is_confident threshold x ≡ false) sprites)
        → All (λ x. is_confident threshold x ≡ false) (s ∷ sprites)
    at (skips no_s e) ih = (no_s, ih (sym e ∙ h))
    at (takes c yes_s shown e) ih = let k : c ∷ picked threshold sprites ≡ [] = sym e ∙ h in cc

-- A single confident candidate shows the one confident sprite.
pub picked-IsOnly :
    (threshold : ℕ) (sprites : List VisibleSprite) (c : VisibleCandidate)
    → picked threshold sprites ≡ c ∷ []
    → (s : VisibleSprite) × IsOnly threshold sprites s × Shows s c
unfolding compatible_candidates confident_candidates
picked-IsOnly threshold [] c h = cc
picked-IsOnly threshold (s ∷ sprites) c h =
    at (first-Step threshold s sprites) (λ k. picked-IsOnly threshold sprites c k)
  where
    at :
        Step threshold s sprites
        → (picked threshold sprites ≡ c ∷ []
            → (x : VisibleSprite) × IsOnly threshold sprites x × Shows x c)
        → (x : VisibleSprite) × IsOnly threshold (s ∷ sprites) x × Shows x c
    at (skips no_s e) ih =
        let (x, only, shown) = ih (sym e ∙ h) in
        (
          x,
          record {
            before = s ∷ only.before;
            after = only.after;
            split = ap (λ r. s ∷ r) only.split;
            confident = only.confident;
            none_before = (no_s, only.none_before);
            none_after = only.none_after;
          },
          shown,
        )
    at (takes c' yes_s shown e) ih =
        let same : c' ∷ picked threshold sprites ≡ c ∷ [] = sym e ∙ h in
        let same_c : c' ≡ c = cc in
        let no_more : picked threshold sprites ≡ [] = cc in
        (
          s,
          record {
            before = [];
            after = sprites;
            split = refl;
            confident = yes_s;
            none_before = tt;
            none_after = picked-nil threshold sprites no_more;
          },
          rw (sym same_c) shown,
        )
