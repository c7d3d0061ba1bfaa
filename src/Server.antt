-- ===== src/Server.antt =====
-- pocisys-gpu-runtime/status_server.py: the status server of the GPU runtime.
pub mod State
pub mod Settings
pub mod SafeTest
pub mod Handler
pub mod Commands
pub mod Safe
pub mod Stored
mod Tests
