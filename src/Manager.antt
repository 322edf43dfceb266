-- ===== src/Manager.antt =====
-- src/fh_agent/manager: the layer that turns plans into bounded, verified tasks.
pub mod Capabilities
pub mod TargetRef
pub mod Reward
pub mod Task
pub mod Scheduler
pub mod Events
pub mod SkillContract
pub mod EventLog
pub mod SkillRunner
pub mod Orchestrator
pub mod MockCompletion
pub mod Grounding
pub mod TaskManager
pub mod Catalog
pub mod TaskExecutor
pub mod Replan
pub mod Intake
pub mod HierarchicalStep
