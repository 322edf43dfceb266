-- ===== src/Bridge/Source/Shown.antt =====
-- What an observation of src/fh_agent/bridge/bridge_server.py shows of its sanitized payload.
use autonomous_game_agent.Prelude.{
  ℕ, ◌^◌, String, not, Option, none, some, List, [], ◌∷◌, ◌≡◌, refl, ap, map, All, if_holds, ltb,
  length,
}
use autonomous_game_agent.Prelude.Int.{ℤ}
use autonomous_game_agent.Observation.{Observation, VisibleSprite}
use autonomous_game_agent.Bridge.Sanitizer.{
  SanitizedBridgePayload, Sanitized, visible, blocked, invalid_payload,
}
use autonomous_game_agent.Bridge.Sprites.{
  normalize_visible_sprites, sprites_at, sprite_at, cons_some, visible_evidence_id,
  source_confidence_accepted,
}
use autonomous_game_agent.Bridge.Adapter.{
  list_or_empty, list_of, observation_with, observation_from_sanitized_bridge_payload,
  visible_text_spans_from_payload,
}

-- The sprites that are made of positions: at these, in order, all on the evidence that was found.
abbrev Made : Option String → List (ℤ × ℤ) → Option (List VisibleSprite) → Type 0
Made found positions none = Unit
Made found positions (some sprites) =
    (map (λ (s : VisibleSprite). s.screen_position) sprites ≡ positions)
    × All (λ (s : VisibleSprite). s.evidence_id ≡ found) sprites

sprite_added :
    (found : Option String) (confidence : Option ℕ) (p : ℤ × ℤ) (positions : List (ℤ × ℤ))
    (hash : Option String) (rest : Option (List VisibleSprite))
    → Made found positions rest
    → Made found (p ∷ positions) (cons_some (sprite_at found confidence p hash) rest)
sprite_added none confidence p positions hash rest h = tt
sprite_added (some i) confidence p positions hash none h = tt
sprite_added (some i) confidence p positions hash (some sprites) h =
    (ap (λ x. p ∷ x) h.0, (refl, h.1))

sprites_at-Made :
    (found : Option String) (confidence : Option ℕ) (positions : List (ℤ × ℤ))
    (hashes : List String)
    → Made found positions (sprites_at found confidence positions hashes)
unfolding sprites_at
sprites_at-Made found confidence [] hashes = (refl, tt)
sprites_at-Made found confidence (p ∷ positions) [] =
    sprite_added found confidence p positions none _ (sprites_at-Made found confidence positions [])
sprites_at-Made found confidence (p ∷ positions) (h ∷ hashes) =
    sprite_added found confidence p positions (some h) _
      (sprites_at-Made found confidence positions hashes)

normalized-Made :
    (positions : List (ℤ × ℤ)) (hashes : List String) (screenshot_id : Option String)
    (ids : List String) (confidence : Option ℕ)
    → Made
        (visible_evidence_id screenshot_id ids)
        positions
        (normalize_visible_sprites [] positions hashes screenshot_id ids confidence)
unfolding normalize_visible_sprites
normalized-Made positions hashes screenshot_id ids confidence =
    let found = visible_evidence_id screenshot_id ids in
    if_holds (Made found positions) (not (source_confidence_accepted confidence)) (λ _. tt)
      (λ _.
        if_holds (Made found positions) (ltb (length positions) (length hashes)) (λ _. tt)
          (λ _. sprites_at-Made found confidence positions hashes))

-- The observation that a sanitized payload becomes.
pub record IsShown (p : SanitizedBridgePayload) (run_id : String) (o : Observation) : Type 0 where
  pub fields :
      o
      ≡ observation_with p run_id
          (visible_text_spans_from_payload p p.screenshot_id)
          o.visible_sprites
  pub positions :
      map (λ (s : VisibleSprite). s.screen_position) o.visible_sprites
      ≡ list_or_empty p.visible_sprite_screen_positions
  pub evidence :
      All
        (λ (s : VisibleSprite).
          s.evidence_id ≡ visible_evidence_id p.screenshot_id (list_of p.screenshot_id))
        o.visible_sprites

abbrev pub Shown : SanitizedBridgePayload → String → Sanitized Observation → Type 0
Shown p run_id (blocked x) = Unit
Shown p run_id (visible o) = IsShown p run_id o

pub shown :
    (p : SanitizedBridgePayload) (run_id : String)
    → Shown p run_id (observation_from_sanitized_bridge_payload p run_id)
unfolding observation_from_sanitized_bridge_payload
shown p run_id = at _ (
    normalized-Made (list_or_empty p.visible_sprite_screen_positions)
      (list_or_empty p.visible_sprite_visual_hashes) p.screenshot_id (list_of p.screenshot_id)
      (some (2 ^ 1074)))
  where
    at :
        (o : Option (List VisibleSprite))
        → Made
            (visible_evidence_id p.screenshot_id (list_of p.screenshot_id))
            (list_or_empty p.visible_sprite_screen_positions)
            o
        → Shown p run_id (elim o as (λ _. Sanitized Observation) [
          | none ↦ blocked invalid_payload
          | some sprites ↦ visible (
              observation_with p run_id (visible_text_spans_from_payload p p.screenshot_id) sprites)
        ])
    at none h = tt
    at (some sprites) h = record { fields = refl; positions = h.0; evidence = h.1 }
