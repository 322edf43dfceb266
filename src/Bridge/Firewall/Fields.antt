-- ===== src/Bridge/Firewall/Fields.antt =====
-- What passes the firewall, field by field.
use mathlib.Core.List.{cons≢nil}
use autonomous_game_agent.Prelude.{
  String, true, false, not, none, some, List, [], ◌∷◌, ◌≡◌, refl, arith, Bool-cases, inl, inr,
  if_holds, if◌then◌else◌, is_empty, eq_iff, eq_refl,
}
use autonomous_game_agent.Prelude.Ids.{contains}
use autonomous_game_agent.Planner.Json.{Json, Entries, no_entries, entry}
use autonomous_game_agent.Planner.Json.Dict.{get}
use autonomous_game_agent.Bridge.Firewall.{
  NoSpoilerFirewall, Filtered, passed, firewall_violation, forbidden_in, allowed_in, sanitize,
}

allowed-get :
    (fields : List String) (key : String) (raw : Entries)
    → get key (allowed_in fields raw) ≡ (if contains fields key then get key raw else none)
unfolding get allowed_in
allowed-get fields key no_entries = elim (Bool-cases (contains fields key)) [
  | inl e ↦ rw e refl
  | inr e ↦ rw e refl
]
allowed-get fields key (entry k v kvs) = elim (Bool-cases (contains fields k)) [
  | inl e ↦ rw e (ground (arith, eq_iff k key, allowed-get fields key kvs))
  | inr e ↦ rw e (ground (arith, eq_iff k key, allowed-get fields key kvs))
]

no_forbidden-get :
    (fields : List String) (key : String) (raw : Entries)
    → forbidden_in fields raw ≡ []
    → contains fields key ≡ true
    → get key raw ≡ none
unfolding get forbidden_in
no_forbidden-get fields key no_entries e h = refl
no_forbidden-get fields key (entry k v kvs) e h = elim (Bool-cases (contains fields k)) [
  | inl f ↦ absurd (cons≢nil (rw f at e))
  | inr f ↦
      let rest : get key kvs ≡ none = no_forbidden-get fields key kvs (rw f at e) h in
      ground (arith, eq_iff k key)
]

empty-nil : (xs : List String) → not (is_empty xs) ≡ false → xs ≡ []
empty-nil [] e = refl
empty-nil (x ∷ xs) e = absurd (cc)

-- A field that is forbidden and given.
abbrev IsViolated : List String → Entries → Type 0
IsViolated fields raw =
    (key : String) × (contains fields key ≡ true) × ((v : Json) × (get key raw ≡ some v))

-- a violation behind a key that is not forbidden
later :
    (fields : List String) (k : String) (v : Json) (kvs : Entries)
    → contains fields k ≡ false
    → IsViolated fields kvs
    → IsViolated fields (entry k v kvs)
unfolding get
later fields k v kvs f (key, h, (w, g)) = (key, h, (w, ground (arith, eq_iff k key)))

forbidden-IsViolated :
    (fields : List String) (raw : Entries)
    → not (is_empty (forbidden_in fields raw)) ≡ true
    → IsViolated fields raw
unfolding get forbidden_in
forbidden-IsViolated fields no_entries e = absurd (cc)
forbidden-IsViolated fields (entry k v kvs) e = elim (Bool-cases (contains fields k)) [
  | inl f ↦ (k, f, (v, rw (eq_refl k) refl))
  | inr f ↦ later fields k v kvs f (forbidden-IsViolated fields kvs (rw f at e))
]

-- What the firewall answers to raw data.
abbrev pub IsFiltered : NoSpoilerFirewall → Entries → Filtered → Type 0
IsFiltered w raw (firewall_violation keys) = IsViolated w.forbidden_fields raw
IsFiltered w raw (passed kvs) =
    ((key : String) → contains w.forbidden_fields key ≡ true → get key raw ≡ none)
    × ((key : String) → get key kvs ≡ (if contains w.allowed_fields key then get key raw else none))

-- The firewall reports a violation only where a forbidden field is given; else no forbidden field is given, and the
-- result has exactly the allowed fields, with their values.
pub sanitize-IsFiltered :
    (w : NoSpoilerFirewall) (raw : Entries) → IsFiltered w raw (sanitize w raw)
unfolding sanitize
sanitize-IsFiltered w raw =
    if_holds (IsFiltered w raw) (not (is_empty (forbidden_in w.forbidden_fields raw)))
      (λ h. forbidden-IsViolated w.forbidden_fields raw h)
      (λ h. (
        λ key.
            no_forbidden-get w.forbidden_fields key raw
              (empty-nil (forbidden_in w.forbidden_fields raw) h),
        λ key. allowed-get w.allowed_fields key raw,
      ))
