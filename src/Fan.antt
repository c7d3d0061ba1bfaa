-- ===== src/Fan.antt =====
-- pocisys-gpu-runtime/fan_controller.py: the fan controller of the GPU runtime.
pub mod Curve
pub mod State
pub mod Manual
pub mod Select
pub mod Tick
pub mod Reader
pub mod Selected
pub mod Invariant
pub mod Safety
pub mod Failsafe
pub mod Device
pub mod Resync
pub mod Hold
pub mod Automatic
pub mod Policy
mod Tests
