-- ===== src/Tlb.antt =====
-- driver/tlb.c: the 2 MiB TLB windows. `Pack` is the register image, `Program` the register
-- writes and the readback check, `Windows` the four ioctl handlers.
pub mod Pack
pub mod Program
pub mod Windows
pub mod Layout
pub mod Mapped
pub mod Lease
pub mod Configured
pub mod Preserves
