-- ===== src/Observation.antt =====
-- src/fh_agent/observation/schemas.py: what is visible on screen. The `created_at` stamps are left
-- out: nothing modelled here reads them. A confidence is a finite float of [0, 1]; it is only
-- compared, and is kept as its number of units of 2^-1074, of which every such float is a whole
-- number.
use autonomous_game_agent.Prelude.{
  ℕ, String, Bool, true, false, not, Option, none, some, List, [], ◌==◌, ◌≡◌, arith, str_eq,
}
use autonomous_game_agent.Prelude.Int.{ℤ}

pub data UiState : Type 0 where
  field dialogue menu combat death unknown : UiState

ui_code : UiState → ℕ
ui_code UiState.field = 0
ui_code UiState.dialogue = 1
ui_code UiState.menu = 2
ui_code UiState.combat = 3
ui_code UiState.death = 4
ui_code UiState.unknown = 5

-- `==` on the literals
unfoldable pub ui_eq : UiState → UiState → Bool
unfolding ui_code
ui_eq a b = ui_code a == ui_code b

pub ui_eq_refl : (a : UiState) → ui_eq a a ≡ true
unfolding ui_eq
ui_eq_refl a = ground arith

pub record VisibleTextSpan : Type 0 where
  pub text : String
  pub confidence : Option ℕ
  pub evidence_id : Option String

pub record VisibleSprite : Type 0 where
  pub screen_position : ℤ × ℤ
  pub visual_hash : Option String
  pub confidence : Option ℕ
  pub evidence_id : Option String

pub record ActionResult : Type 0 where
  pub action : String
  pub executed : Bool
  pub blocked_reason : Option String
  pub evidence_ids : List String

pub record Observation : Type 0 where
  pub observation_id : Option String
  pub run_id : String
  pub ui_state : UiState
  pub screenshot_id : Option String
  pub screen_signature : Option String
  pub message_window_visible : Option Bool
  pub visible_message_text : Option String
  pub visible_text_spans : List VisibleTextSpan
  pub menu_open : Option Bool
  pub visible_menu_items : List String
  pub combat_ui_visible : Option Bool
  pub death_screen_visible : Option Bool
  pub player_screen_position : Option (ℤ × ℤ)
  pub visible_sprite_screen_positions : List (ℤ × ℤ)
  pub visible_sprite_visual_hashes : List String
  pub visible_sprites : List VisibleSprite
  pub last_action_result : Option ActionResult
  pub evidence_ids : List String

pub record SkillResult : Type 0 where
  pub skill_name : String
  pub success : Bool
  pub evidence_ids : List String
  pub failure_reason : Option String

-- `bool(text)` for an optional text
unfoldable pub has_text : Option String → Bool
has_text none = false
has_text (some s) = not (str_eq s "")

-- The defaults of the schema, for a run of the given name.
abbrev pub blank : String → Observation
blank run = record {
  observation_id = none;
  run_id = run;
  ui_state = UiState.unknown;
  screenshot_id = none;
  screen_signature = none;
  message_window_visible = none;
  visible_message_text = none;
  visible_text_spans = [];
  menu_open = none;
  visible_menu_items = [];
  combat_ui_visible = none;
  death_screen_visible = none;
  player_screen_position = none;
  visible_sprite_screen_positions = [];
  visible_sprite_visual_hashes = [];
  visible_sprites = [];
  last_action_result = none;
  evidence_ids = [];
}
