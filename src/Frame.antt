-- ===== src/Frame.antt =====
-- What routines leave alone, for every property of the world that ignores what they do.
pub mod Firmware
pub mod Quiet
pub mod Dark
