-- ===== src/Logs.antt =====
-- pocisys-hash-monitor/services/pool_logs.py: `PoolLogService`.
pub mod Dict
pub mod State
pub mod Stamp
pub mod Shares
pub mod History
pub mod Merge
pub mod Blocks
pub mod Poll
pub mod Scan
pub mod Bests
pub mod Kept
pub mod Steps
pub mod Reached
pub mod Saved
pub mod Restored
pub mod Reloaded
pub mod Reset
mod Tests
