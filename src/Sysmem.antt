-- ===== src/Sysmem.antt =====
-- driver/sysmem.c: the host buffer that the device reaches over the NOC. `Buffer` is its
-- allocation and release, `Arm` the address translation and the loopback check, `Ioctl` the
-- three handlers.
pub mod Buffer
pub mod Arm
pub mod Ioctl
pub mod Probe
pub mod Loopback
pub mod Verified
pub mod Shown
pub mod Mapped
