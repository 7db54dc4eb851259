-- ===== src/Tests.antt =====
-- Tests and the instances of the theorems at concrete inputs, over a simulated device.
pub mod Sim
mod Machine
mod Fences
mod Handlers
mod Mappings
mod Runs
mod Recovery
mod Witnesses
mod Tool
