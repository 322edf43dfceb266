-- ===== src/Game.antt =====
-- src/fh_agent/game: the guarded boundary through which every primitive input goes.
pub mod Call
pub mod InputExecutor
pub mod EmergencyStop
