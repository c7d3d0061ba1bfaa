-- ===== src/Pool.antt =====
-- pocisys-public-pool-port/app: the companion of a public mining pool.
pub mod Bytes
pub mod Proof
pub mod Store
pub mod Monitor
pub mod Target
pub mod Shares
pub mod Newest
pub mod Blocks
mod Tests
