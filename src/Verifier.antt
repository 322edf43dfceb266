-- ===== src/Verifier.antt =====
-- src/fh_agent/verifier: independent judges of what an attempt visibly did.
pub mod Schemas
pub mod Dialogue
pub mod Interaction
pub mod ReachTarget
pub mod Contract
pub mod Backed
pub mod Outcome
mod Tests
