-- ===== src/Reset.antt =====
-- driver/reset.c: the reset in two halves. `Config` is the config-space access, `Arm`
-- RESET_DEVICE and `Recover` POST_RESET.
pub mod Config
pub mod Arm
pub mod Recover
pub mod Gate
pub mod Fence
pub mod Stale
pub mod Restored
pub mod Back
pub mod Recovered
