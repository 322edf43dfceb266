-- ===== src/Game/EmergencyStop.antt =====
-- src/fh_agent/game/emergency_stop.py and focus_guard.py. What `Path.stat` finds is an argument.
use autonomous_game_agent.Prelude.{Bool, true, false}

-- how `stat()` of the stop file ends
pub data Stat : Type 0 where
  present file_not_found other_os_error : Stat

-- `StopFileEmergencyStopCheck.is_triggered`
unfoldable pub is_triggered : Stat → Bool
is_triggered Stat.present = true
is_triggered Stat.file_not_found = false
is_triggered Stat.other_os_error = true
