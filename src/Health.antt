-- ===== src/Health.antt =====
-- pocisys-hash-monitor/services/health.py: `HealthEngine`.
pub mod State
pub mod Signals
pub mod Evaluate
mod Streaks
mod Confirmed
mod Miners
mod Tests
