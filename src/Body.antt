-- ===== src/Body.antt =====
-- src/fh_agent/body: the skills, which only propose primitive actions.
pub mod Actions
pub mod Skills
pub mod SafeReach
