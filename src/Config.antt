-- ===== src/Config.antt =====
-- pocisys-hash-monitor/services/validation.py and config_transfer.py.
pub mod Values
pub mod Miner
pub mod Safe
mod Tests
pub mod Transfer
pub mod Ids
