-- ===== src/Bridge/Source/Evidence.antt =====
-- What an observation of the bridge rests on.
use mathlib.Core.Path.{subst}
use autonomous_game_agent.Prelude.{
  String, true, false, not, Option, none, some, List, [], ◌∷◌, ◌≡◌, refl, sym, ap, ◌∙◌, arith, All,
  if_holds, str_eq, eq_iff,
}
use autonomous_game_agent.Observation.{Observation, VisibleSprite}
use autonomous_game_agent.Planner.Json.{text, atom, array, object, Entries}
use autonomous_game_agent.Bridge.Feed.{Reading, payload, exhausted, invalid, inconsistent}
use autonomous_game_agent.Planner.Json.Dict.{get}
use autonomous_game_agent.Bridge.Snapshot.{is_text}
use autonomous_game_agent.Bridge.Sanitizer.{
  BridgeRunMode, bridge_assisted, debug, SanitizedBridgePayload, Sanitized, visible, blocked,
  sanitize_bridge_payload,
}
use autonomous_game_agent.Bridge.Sanitizer.Visible.{IsVisible, Sound, sanitized-Sound}
use autonomous_game_agent.Bridge.Sprites.{visible_evidence_id}
use autonomous_game_agent.Bridge.Adapter.{
  BridgeReceipt, list_of, observation_from_sanitized_bridge_payload, receipt_of,
  accept_observation_payload,
}
use autonomous_game_agent.Bridge.Source.{
  BridgeSight, observed, source_exhausted, source_failed, mode_text, require_current_screenshot,
  in_mode, accepted_receipt, observe,
}
use autonomous_game_agent.Bridge.Source.Shown.{IsShown, Shown, shown}

-- In a run that the bridge assists: the observation is of the latest screenshot, which is its only evidence and that of
-- every sprite.
pub record IsCurrent (latest : Option String) (o : Observation) : Type 0 where
  pub screenshot : String
  pub named : o.screenshot_id ≡ some screenshot
  pub not_empty : str_eq screenshot "" ≡ false
  pub newest : latest ≡ some screenshot
  pub only_evidence : o.evidence_ids ≡ screenshot ∷ []
  pub sprites : All (λ (s : VisibleSprite). s.evidence_id ≡ some screenshot) o.visible_sprites

abbrev CurrentIn : BridgeRunMode → Option String → Observation → Type 0
CurrentIn bridge_assisted latest o = IsCurrent latest o
CurrentIn debug latest o = Unit

pub record IsSighted (fields_of : Entries → Option SanitizedBridgePayload) (run_id : String)
    (mode : BridgeRunMode) (latest : Option String) (raw : Entries) (o : Observation) : Type 0 where
  pub payload : SanitizedBridgePayload
  pub from : IsVisible fields_of raw payload
  pub in_mode : is_text (get "run_mode" raw) (mode_text mode) ≡ true
  pub shown : IsShown payload run_id o
  pub current : CurrentIn mode latest o

screenshot-found :
    (t : String) (ids : List String)
    → str_eq t "" ≡ false
    → visible_evidence_id (some t) ids ≡ some t
unfolding visible_evidence_id
screenshot-found t ids e = rw e refl

shown-IsCurrent :
    (p : SanitizedBridgePayload) (run_id t : String) (latest : Option String) (o : Observation)
    → IsShown p run_id o
    → o.screenshot_id ≡ some t
    → str_eq t "" ≡ false
    → latest ≡ some t
    → IsCurrent latest o
shown-IsCurrent p run_id t latest o h named not_empty newest =
    let own : p.screenshot_id ≡ some t =
      sym (ap (λ (x : Observation). x.screenshot_id) h.fields) ∙ named in
    record {
      screenshot = t;
      named = named;
      not_empty = not_empty;
      newest = newest;
      only_evidence = ap (λ (x : Observation). x.evidence_ids) h.fields ∙ ap list_of own;
      sprites =
          subst (λ x. All (λ (s : VisibleSprite). s.evidence_id ≡ x) o.visible_sprites)
            (ap (λ x. visible_evidence_id x (list_of x)) own
              ∙ screenshot-found t (t ∷ []) not_empty)
            h.evidence;
    }

-- What a sight of `o` promises: it is `o`, and current.
abbrev Current : BridgeRunMode → Option String → Observation → BridgeSight → Type 0
Current mode latest o (observed x) = (o ≡ x) × CurrentIn mode latest o
Current mode latest o source_exhausted = Unit
Current mode latest o (source_failed e) = Unit

required-Current :
    (p : SanitizedBridgePayload) (run_id : String) (screenshot latest : Option String)
    (o : Observation)
    → IsShown p run_id o
    → o.screenshot_id ≡ screenshot
    → Current bridge_assisted latest o (require_current_screenshot screenshot latest o)
unfolding require_current_screenshot
required-Current p run_id none latest o h e = tt
required-Current p run_id (some t) none o h e =
    if_holds (Current bridge_assisted none o) (str_eq t "") (λ _. tt) (λ _. tt)
required-Current p run_id (some t) (some i) o h e =
    if_holds (Current bridge_assisted (some i) o) (str_eq t "") (λ _. tt)
      (λ a.
        if_holds (Current bridge_assisted (some i) o) (not (str_eq t i)) (λ _. tt)
          (λ b.
            let same : t ≡ i = (eq_iff t i).0 (ground arith) in
            (refl, shown-IsCurrent p run_id t (some i) o h e a (ap (λ x. some x) (sym same)))))

module _ (fields_of : Entries → Option SanitizedBridgePayload) (run_id : String)
    (mode : BridgeRunMode) (latest : Option String) where
  abbrev Backed : Entries → BridgeSight → Type 0
  Backed raw (observed o) = IsSighted fields_of run_id mode latest raw o
  Backed raw source_exhausted = Unit
  Backed raw (source_failed e) = Unit

  -- Only a read of raw data gives an observation.
  abbrev pub Sighted : Reading → BridgeSight → Type 0
  Sighted (payload (object raw)) s = Backed raw s
  Sighted (payload (text t)) (observed o) = ⊥
  Sighted (payload (atom a)) (observed o) = ⊥
  Sighted (payload (array vs)) (observed o) = ⊥
  Sighted exhausted (observed o) = ⊥
  Sighted (invalid x) (observed o) = ⊥
  Sighted (inconsistent x) (observed o) = ⊥
  Sighted r source_exhausted = Unit
  Sighted r (source_failed e) = Unit

  sight-Backed :
      (raw : Entries) (p : SanitizedBridgePayload) (o : Observation)
      → IsVisible fields_of raw p
      → IsShown p run_id o
      → is_text (get "run_mode" raw) (mode_text mode) ≡ true
      → (s : BridgeSight) → Current mode latest o s
      → Backed raw s
  sight-Backed raw p o from h in_mode (observed x) (same, c) =
      subst (IsSighted fields_of run_id mode latest raw) same
        (record { payload = p; from = from; in_mode = in_mode; shown = h; current = c })
  sight-Backed raw p o from h in_mode source_exhausted c = tt
  sight-Backed raw p o from h in_mode (source_failed e) c = tt

  mode-Current :
      (p : SanitizedBridgePayload) (o : Observation) (m : BridgeRunMode)
      → IsShown p run_id o
      → Current m latest o (in_mode m latest (some o))
  unfolding in_mode
  mode-Current p o bridge_assisted h = required-Current p run_id o.screenshot_id latest o h refl
  mode-Current p o debug h = (refl, tt)

  receipt-Backed :
      (raw : Entries) (p : SanitizedBridgePayload) (o : Sanitized Observation)
      → IsVisible fields_of raw p
      → Shown p run_id o
      → Backed raw (accepted_receipt fields_of mode latest (receipt_of fields_of raw p o))
  unfolding accepted_receipt
  receipt-Backed raw p (blocked x) from h = tt
  receipt-Backed raw p (visible o) from h =
      if_holds (Backed raw) (not (is_text (get "run_mode" raw) (mode_text mode))) (λ _. tt)
        (λ k.
          sight-Backed raw p o from h (ground arith) (in_mode mode latest (some o))
            (mode-Current p o mode h))

  object-Backed :
      (raw : Entries)
      → Backed raw
          (accepted_receipt fields_of mode latest (accept_observation_payload fields_of raw run_id))
  unfolding accept_observation_payload accepted_receipt
  object-Backed raw = at (sanitize_bridge_payload fields_of raw) (sanitized-Sound fields_of raw)
    where
      at :
          (s : Sanitized SanitizedBridgePayload)
          → Sound fields_of raw s
          → Backed raw (
              accepted_receipt fields_of mode latest (elim s as (λ _. Sanitized BridgeReceipt) [
                | blocked x ↦ blocked x
                | visible p ↦
                    receipt_of fields_of raw p (observation_from_sanitized_bridge_payload p run_id)
              ]))
      at (blocked x) h = tt
      at (visible p) h =
          receipt-Backed raw p (observation_from_sanitized_bridge_payload p run_id) h
            (shown p run_id)

  -- An observation of the bridge comes of raw data with accepted fields only, in which no object, at any depth, has a
  -- field of hidden state, whose positions are not negative and whose hashes are visual hashes, and whose run mode is
  -- the source's. Its sprites stand at the payload's positions, in order. In a run that the bridge assists it is of the
  -- latest screenshot on record, which is its only evidence and that of every sprite.
  pub observation-IsSighted : (r : Reading) → Sighted r (observe fields_of run_id mode latest r)
  unfolding observe
  observation-IsSighted exhausted = tt
  observation-IsSighted (invalid x) = tt
  observation-IsSighted (inconsistent x) = tt
  observation-IsSighted (payload (object raw)) = object-Backed raw
  observation-IsSighted (payload (text t)) = tt
  observation-IsSighted (payload (atom a)) = tt
  observation-IsSighted (payload (array vs)) = tt
