-- ===== src/Arc.antt =====
-- driver/arc.c: messages to the ARC firmware. `Access` is the register and SRAM access, `Locate`
-- the discovery of the message queue, `Ring` its two rings, `Exchange` a request with its
-- response and the power messages, `Ioctl` the two handlers.
pub mod Access
pub mod Locate
pub mod Ring
pub mod Exchange
pub mod Ioctl
pub mod Settled
pub mod Bounded
