-- ===== src/Manager/SkillRunner.antt =====
-- src/fh_agent/manager/skill_runner.py: one bounded run of a skill through guarded input. The world
-- behind the runner (the observation source, the input executor and what they stand for) is a
-- parameter, with the two calls that the runner makes of it.
pub mod Runtime
pub mod Results
pub mod Locals
pub mod Run
pub mod Frames
pub mod Bounds
pub mod Sound
pub mod Authority
pub mod Growth
pub mod Worlds
pub mod Safety
pub mod Wired
mod Tests
