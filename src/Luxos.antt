-- ===== src/Luxos.antt =====
-- pocisys-hash-monitor/services/luxos_control.py: the guarded control of LuxOS miners.
pub mod State
pub mod Monad
pub mod Client
pub mod Profiles
pub mod Execute
pub mod Schedule
pub mod Recovery
pub mod Sends
pub mod Ceiling
pub mod Window
pub mod Locks
pub mod Cooldown
pub mod Restarts
pub mod Streak
pub mod Rest
pub mod Reconfigure
mod Tests
