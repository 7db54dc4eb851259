-- ===== src/Mapping.antt =====
-- driver/mapping.c: user mappings of device memory. `Table` is the state under StateLock,
-- `View` the mapping into a process and its teardown, `Ioctl` the two handlers, `Teardown` the
-- cleanup of a handle and the revocation of everything.
pub mod Table
pub mod Sound
pub mod Released
pub mod Preserves
pub mod Frozen
pub mod Cleanup
pub mod Shown
pub mod Created
pub mod Ranges
pub mod View
pub mod Removal
pub mod Unmapped
pub mod Ioctl
pub mod Teardown
