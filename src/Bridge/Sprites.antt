-- ===== src/Bridge/Sprites.antt =====
-- src/fh_agent/observation/visible_sprite_normalization.py. A confidence is in units of 2^-1074. `none` is a raised
-- VisibleSpriteNormalizationError.
use autonomous_game_agent.Prelude.{
  ℕ, ◌^◌, String, Bool, true, false, not, Option, none, some, List, [], ◌∷◌, ◌&&◌, ◌||◌,
  if◌then◌else◌, is_empty, leb, ltb, ◌==◌, length, str_eq,
}
use autonomous_game_agent.Prelude.Int.{ℤ, pos, negsuc}
use autonomous_game_agent.Prelude.Ids.{extend_all}
use autonomous_game_agent.Observation.{VisibleSprite, has_text}

abbrev int_eq : ℤ → ℤ → Bool
int_eq (pos m) (pos n) = m == n
int_eq (negsuc m) (negsuc n) = m == n
int_eq (pos m) (negsuc n) = false
int_eq (negsuc m) (pos n) = false

-- `==` on hashes that may be missing, against one that is there
abbrev hash_is : Option String → String → Bool
hash_is none h = false
hash_is (some g) h = str_eq g h

-- the first evidence ID where there is exactly one
abbrev single : List String → Option String
single [] = none
single (i ∷ []) = some i
single (i ∷ j ∷ ids) = none

-- `_visible_evidence_id`
unfoldable pub visible_evidence_id : Option String → List String → Option String
unfolding has_text
visible_evidence_id none ids = single (extend_all [] (ids ∷ []))
visible_evidence_id (some s) ids = if str_eq s "" then single (extend_all [] (ids ∷ [])) else some s

-- `_validate_source_confidence`: true where it returns
unfoldable pub source_confidence_accepted : Option ℕ → Bool
source_confidence_accepted none = true
source_confidence_accepted (some c) = leb c (2 ^ 1074)

-- the loop of `_validate_compatible_representations`, where both lists are as long
unfoldable pub same_sprites : List VisibleSprite → List (ℤ × ℤ) → List String → Bool
same_sprites [] positions hashes = true
same_sprites (s ∷ sprites) [] hashes = true
same_sprites (s ∷ sprites) ((x, y) ∷ positions) [] =
    int_eq s.screen_position.0 x
    && int_eq s.screen_position.1 y
    && same_sprites sprites positions []
same_sprites (s ∷ sprites) ((x, y) ∷ positions) (h ∷ hashes) =
    int_eq s.screen_position.0 x
    && int_eq s.screen_position.1 y
    && hash_is s.visual_hash h
    && same_sprites sprites positions hashes

-- `_validate_compatible_representations`: true where it returns
unfoldable pub compatible_representations : List VisibleSprite → List (ℤ × ℤ) → List String → Bool
unfolding same_sprites
compatible_representations sprites positions hashes =
    is_empty positions
    || (length sprites == length positions && same_sprites sprites positions hashes)

abbrev pub cons_some : {A : Type 0} → Option A → Option (List A) → Option (List A)
cons_some none xs = none
cons_some (some x) none = none
cons_some (some x) (some xs) = some (x ∷ xs)

-- `_with_visible_evidence`
unfoldable pub with_visible_evidence : Option String → VisibleSprite → Option VisibleSprite
with_visible_evidence found s = elim s.evidence_id [
  | some i ↦ some s
  | none ↦ elim found [ none ↦ none | some i ↦ some (record s { evidence_id = some i }) ]
]

unfoldable pub all_with_evidence : Option String → List VisibleSprite → Option (List VisibleSprite)
unfolding with_visible_evidence
all_with_evidence found [] = some []
all_with_evidence found (s ∷ sprites) =
    cons_some (with_visible_evidence found s) (all_with_evidence found sprites)

-- the sprite of a position, with its hash if there is one, on the evidence that was found
abbrev pub sprite_at : Option String → Option ℕ → ℤ × ℤ → Option String → Option VisibleSprite
sprite_at none confidence position hash = none
sprite_at (some i) confidence position hash = some (record {
  screen_position = position;
  visual_hash = hash;
  confidence = confidence;
  evidence_id = some i;
})

-- the comprehension over the positions
unfoldable pub sprites_at :
    Option String → Option ℕ → List (ℤ × ℤ) → List String → Option (List VisibleSprite)
sprites_at found confidence [] hashes = some []
sprites_at found confidence (p ∷ positions) [] =
    cons_some (sprite_at found confidence p none) (sprites_at found confidence positions [])
sprites_at found confidence (p ∷ positions) (h ∷ hashes) =
    cons_some (sprite_at found confidence p (some h)) (sprites_at found confidence positions hashes)

unfoldable pub normalize_visible_sprites :
    List VisibleSprite
    → List (ℤ × ℤ)
    → List String
    → Option String
    → List String
    → Option ℕ
    → Option (List VisibleSprite)
unfolding source_confidence_accepted compatible_representations all_with_evidence sprites_at
    visible_evidence_id
normalize_visible_sprites sprites positions hashes screenshot_id evidence_ids confidence =
    let found = visible_evidence_id screenshot_id evidence_ids in
    if not (source_confidence_accepted confidence)
    then none
    else if ltb (length positions) (length hashes)
    then none
    else if is_empty sprites
    then sprites_at found confidence positions hashes
    else if compatible_representations sprites positions hashes
    then all_with_evidence found sprites
    else none
