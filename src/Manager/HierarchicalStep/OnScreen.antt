-- ===== src/Manager/HierarchicalStep/OnScreen.antt =====
-- Targets on the screen of a step of src/fh_agent/manager/hierarchical_step.py, and the task that an idle scheduler starts.
use mathlib.Core.Path.{subst}
use autonomous_game_agent.Prelude.{
  String, false, not, Option, none, some, List, [], ◌∷◌, ◌++◌, ◌≡◌, refl, ◌∙◌, ap, is_empty,
  is_none, ◌||◌,
}
use autonomous_game_agent.Prelude.Int.{pos}
use autonomous_game_agent.Game.Call.{Call, returns, raises}
use autonomous_game_agent.Observation.{Observation, VisibleSprite}
use autonomous_game_agent.Planner.Json.{Json}
use autonomous_game_agent.Planner.Output.{PlannerOutput}
use autonomous_game_agent.Manager.Capabilities.{SkillCapabilityContract}
use autonomous_game_agent.Manager.Task.{TaskSpec}
use autonomous_game_agent.Manager.TargetRef.{SkillName, GroundedTarget, TargetType, GroundingResult}
use autonomous_game_agent.Manager.TaskManager.{target_is}
use autonomous_game_agent.Manager.TaskManager.Target.{Fits}
use autonomous_game_agent.Manager.Grounding.{GroundingRequest, GroundingPolicy, VisibleCandidate}
use autonomous_game_agent.Manager.Grounding
use autonomous_game_agent.Manager.Grounding.Only.{IsOnly}
use autonomous_game_agent.Manager.Grounding.Sound.{grounding_is_sound}
use autonomous_game_agent.Manager.Grounding.Audit.{Promised, IsOnTarget, target_position}
use autonomous_game_agent.Manager.Scheduler.{ScheduledTask, TaskStatus, Scheduler, scheduled}
use autonomous_game_agent.Manager.Scheduler
use autonomous_game_agent.Manager.Intake.{ground_if}
use autonomous_game_agent.Manager.HierarchicalStep.{is_busy}

-- A target stands where the only sprite with enough confidence stands on the screen.
abbrev pub IsOnScreen : GroundingPolicy → Observation → Option GroundedTarget → Type 0
IsOnScreen policy o none = Unit
IsOnScreen policy o (some t) =
    (sprite : VisibleSprite) × IsOnly policy.min_confidence o.visible_sprites sprite
    × (sprite.screen_position.0 ≡ pos (target_position t).0)
    × (sprite.screen_position.1 ≡ pos (target_position t).1)

on_target-IsOnScreen :
    (policy : GroundingPolicy) (request : GroundingRequest) (o : Observation) (g : GroundingResult)
    (t : GroundedTarget)
    → IsOnTarget policy request o g
    → g.target ≡ some t
    → IsOnScreen policy o (some t)
on_target-IsOnScreen policy request o g t h e =
    let same : h.target ≡ t = (let k : g.target ≡ some h.target = h.held in cc) in
    subst (λ x. IsOnScreen policy o (some x)) same (h.sprite, h.only, h.left, h.top)

module _ (lower : String → String) (fields_of : Json → Option PlannerOutput)
    (task_id_for : TaskSpec → String) (capabilities : SkillCapabilityContract) {M : Type 0}
    (plan_next_goal : Observation → M → List SkillName → Call PlannerOutput)
    (target_id_for : TargetType → VisibleCandidate → List String → String)
    (policy : GroundingPolicy) where
  abbrev ground_request : GroundingRequest → Observation → Call GroundingResult
  ground_request = Grounding.ground target_id_for policy

  -- the target of a task that is queued on a grounding in the screen
  pub fitting-IsOnScreen :
      (o : Observation) (request : Option GroundingRequest) (g : Option GroundingResult)
      (skill : SkillName) (target : Option GroundedTarget)
      → ground_if lower fields_of task_id_for capabilities plan_next_goal ground_request request o
        ≡ returns g
      → Fits skill g (target_is target)
      → IsOnScreen policy o target
  unfolding ground_if
  fitting-IsOnScreen o request g skill none h fits = tt
  fitting-IsOnScreen o none g skill (some t) h (r, e, grounded, held, fits) =
      absurd (let k : g ≡ some r = e in let n : some r ≡ none = (cc) in cc)
  fitting-IsOnScreen o (some request) g skill (some t) h (r, e, grounded, held, fits) =
      at (ground_request request o) (grounding_is_sound policy request o target_id_for) h
    where
      at :
          (c : Call GroundingResult)
          → Promised policy request o c
          → (elim c as (λ _. Call (Option GroundingResult)) [
            | raises ↦ raises
            | returns x ↦ returns (some x)
          ])
            ≡ returns g
          → IsOnScreen policy o (some t)
      at raises p k = absurd (cc)
      at (returns x) p k =
          let same : x ≡ r = (cc) in
          on_target-IsOnScreen policy request o x t
            (p.on_target (ap (λ (y : GroundingResult). y.status) same ∙ grounded))
            (ap (λ (y : GroundingResult). y.target) same ∙ held)

abbrev pub running_of : ScheduledTask → ScheduledTask
running_of t = record t { status = TaskStatus.running }

-- Where a scheduler is idle, the task that is queued in it starts.
pub start_alone :
    (s : Scheduler) (task : ScheduledTask)
    → is_busy s ≡ false
    → ((Scheduler.start_next (record s { queue = s.queue ++ task ∷ [] })).0
        ≡ some (running_of task))
      × ((Scheduler.start_next (record s { queue = s.queue ++ task ∷ [] })).1.current_task
          ≡ some (running_of task))
unfolding Scheduler.start_next is_busy
start_alone s task h = at s.queue s.current_task h
  where
    at :
        (q : List ScheduledTask) (c : Option ScheduledTask)
        → (not (is_none c) || not (is_empty q)) ≡ false
        → ((Scheduler.start_from (q ++ task ∷ []) c (record s { queue = q ++ task ∷ [] })).0
            ≡ some (running_of task))
          × ((Scheduler.start_from
                (q ++ task ∷ [])
                c
                (record s { queue = q ++ task ∷ [] })).1.current_task
              ≡ some (running_of task))
    at [] none k = (refl, refl)
    at (t ∷ q) none k = absurd (cc)
    at [] (some c) k = absurd (cc)
    at (t ∷ q) (some c) k = absurd (cc)
