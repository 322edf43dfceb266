-- ===== src/Planner.antt =====
-- src/fh_agent/planner: the contract of the planner's output.
pub mod Text
pub mod Paths
pub mod Traversal
pub mod Json
pub mod Scan
pub mod Hidden
pub mod Contract
pub mod Output
pub mod Notes
pub mod Context
pub mod Cortex
