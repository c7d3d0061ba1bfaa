-- ===== src/Alerts.antt =====
-- pocisys-hash-monitor/services/alerts.py: `AlertEngine`.
mod State
mod Emit
mod Conditions
mod Evaluate
mod Miner
mod Preserved
mod Snoozed
mod Bounds
mod Cooldown
mod Tests
